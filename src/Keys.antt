-- ===== src/Keys.antt =====
-- The keys by which the controller and the callout driver name the callouts:
-- src/WFPController/wfpcontroller.identifiers.ixx and src/WPFCalloutDriver/include/Callouts.hpp.
pub mod Agreement
mod Examples
use basic_windows_drivers.Base.{ℕ, ◌&&◌, Bool, true, false, List, [], ◌∷◌, Option, none, some, ◌==◌}
use basic_windows_drivers.Callouts.System.{
  Callout, outbound_ipv4, inbound_icmp_error, outbound_icmp_error, outbound_tcp, inbound_tcp,
  inbound_ipv4,
}
use basic_windows_drivers.Engine.Platform.{
  Guid, provider_key, provider_context_key, sublayer_key, outbound_tcp_callout_key,
  outbound_ipv4_callout_key, inbound_icmp_error_callout_key, outbound_icmp_error_callout_key,
}

-- A GUID: Data1, Data2, Data3 and the bytes of Data4.
pub record GuidValue : Type 0 where
  pub data_1 : ℕ
  pub data_2 : ℕ
  pub data_3 : ℕ
  pub data_4 : List ℕ

abbrev pub guid : ℕ → ℕ → ℕ → List ℕ → GuidValue
guid a b c d = record { data_1 = a; data_2 = b; data_3 = c; data_4 = d }

-- The constants of WFPController::Identifiers that the engine uses. The layers' keys are the system's.
unfoldable pub controller_key : Guid → Option GuidValue
controller_key outbound_ipv4_callout_key =
    some
      (guid 0x2CC08215 0x0458 0x4B8B (0x9B ∷ 0x03 ∷ 0x1A ∷ 0x00 ∷ 0xF4 ∷ 0x91 ∷ 0x45 ∷ 0x99 ∷ []))
controller_key inbound_icmp_error_callout_key =
    some
      (guid 0x56e4c747 0xb3f4 0x464f (0x89 ∷ 0xcc ∷ 0x51 ∷ 0x1d ∷ 0x19 ∷ 0x99 ∷ 0xb2 ∷ 0x7b ∷ []))
controller_key outbound_icmp_error_callout_key =
    some (guid 0xeb79f29b 0xccb 0x48d7 (0x8a ∷ 0x33 ∷ 0x45 ∷ 0xcb ∷ 0x31 ∷ 0x1e ∷ 0x71 ∷ 0x25 ∷ []))
controller_key outbound_tcp_callout_key =
    some (guid 0x6a7cea1 0x7826 0x4330 (0xb2 ∷ 0xf9 ∷ 0x4d ∷ 0x80 ∷ 0x1b ∷ 0xdc ∷ 0xb ∷ 0x37 ∷ []))
controller_key provider_key =
    some
      (guid 0x270B7DD9 0x17E7 0x480E (0x52 ∷ 0x5F ∷ 0x04 ∷ 0xBB ∷ 0x81 ∷ 0xF4 ∷ 0x24 ∷ 0x95 ∷ []))
controller_key sublayer_key =
    some
      (guid 0x91a8a45b 0x9504 0x407e (0xa2 ∷ 0x8c ∷ 0xfe ∷ 0xa5 ∷ 0x1f ∷ 0x8d ∷ 0x6c ∷ 0x6d ∷ []))
controller_key provider_context_key =
    some
      (guid 0x7cc93455 0x562a 0x4691 (0xae ∷ 0xa2 ∷ 0x62 ∷ 0x1f ∷ 0x34 ∷ 0xed ∷ 0x37 ∷ 0x84 ∷ []))
controller_key _ = none

-- The Key of each namespace of the driver.
unfoldable pub driver_key : Callout → GuidValue
driver_key outbound_tcp =
    guid 0x6a7cea1 0x7826 0x4330 (0xb2 ∷ 0xf9 ∷ 0x4d ∷ 0x80 ∷ 0x1b ∷ 0xdc ∷ 0xb ∷ 0x37 ∷ [])
driver_key outbound_ipv4 =
    guid 0x2cc08215 0x458 0x4b8b (0x9b ∷ 0x3 ∷ 0x1a ∷ 0x0 ∷ 0xf4 ∷ 0x91 ∷ 0x45 ∷ 0x99 ∷ [])
driver_key outbound_icmp_error =
    guid 0xeb79f29b 0xccb 0x48d7 (0x8a ∷ 0x33 ∷ 0x45 ∷ 0xcb ∷ 0x31 ∷ 0x1e ∷ 0x71 ∷ 0x25 ∷ [])
driver_key inbound_ipv4 =
    guid 0xb0440efa 0x87cc 0x4727 (0x8d ∷ 0x95 ∷ 0x97 ∷ 0x2f ∷ 0xc0 ∷ 0x2f ∷ 0xa4 ∷ 0xca ∷ [])
driver_key inbound_tcp =
    guid 0xdfb38ef 0x59f8 0x4602 (0xb9 ∷ 0x2e ∷ 0x41 ∷ 0x70 ∷ 0x92 ∷ 0xb4 ∷ 0xee ∷ 0x79 ∷ [])
driver_key inbound_icmp_error =
    guid 0x56e4c747 0xb3f4 0x464f (0x89 ∷ 0xcc ∷ 0x51 ∷ 0x1d ∷ 0x19 ∷ 0x99 ∷ 0xb2 ∷ 0x7b ∷ [])

-- How the platform compares keys.
unfoldable same_bytes : List ℕ → List ℕ → Bool
same_bytes [] [] = true
same_bytes (a ∷ l) (b ∷ k) = (a == b) && same_bytes l k
same_bytes _ _ = false

unfoldable pub same_key : GuidValue → GuidValue → Bool
unfolding same_bytes
same_key a b =
    (a.data_1 == b.data_1)
    && (a.data_2 == b.data_2)
    && (a.data_3 == b.data_3)
    && same_bytes a.data_4 b.data_4
