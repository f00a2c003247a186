-- ===== src/Engine/State.antt =====
-- The objects of src/WFPController/WindowsFilteringPlatform: a Callout and the WFPEngine with its four. A
-- null handle is 0. The names that are only displayed are left out.
use basic_windows_drivers.Base.{ℕ, Bool, List}
use basic_windows_drivers.Engine.Platform.{Guid, Call}

pub record Callout : Type 0 where
  pub engine_handle : ℕ
  pub callout_key : Guid
  pub provider_key : Guid
  pub applicable_layer_key : Guid
  pub callout_id : ℕ
  pub flags : ℕ

pub record Engine : Type 0 where
  pub engine_handle : ℕ
  pub added_provider : Bool
  pub added_sublayer : Bool
  pub outbound_ipv4_filter_id : ℕ
  pub inbound_icmp_error_filter_id : ℕ
  pub outbound_icmp_error_filter_id : ℕ
  pub outbound_transport_filter_id : ℕ
  pub outbound_ipv4_callout : Callout
  pub inbound_icmp_error_callout : Callout
  pub outbound_icmp_error_callout : Callout
  pub outbound_tcp_callout : Callout
  pub context_id : ℕ

-- The engine and the calls made of the platform so far.
pub record World : Type 0 where
  pub engine : Engine
  pub trace : List Call

-- The four members of the engine that are callouts.
pub data Slot : Type 0 where
  outbound_ipv4 inbound_icmp_error outbound_icmp_error outbound_tcp : Slot

abbrev pub callout_of : Slot → Engine → Callout
callout_of outbound_ipv4 e = e.outbound_ipv4_callout
callout_of inbound_icmp_error e = e.inbound_icmp_error_callout
callout_of outbound_icmp_error e = e.outbound_icmp_error_callout
callout_of outbound_tcp e = e.outbound_tcp_callout

abbrev pub set_callout : Slot → Callout → Engine → Engine
set_callout outbound_ipv4 c e = record e { outbound_ipv4_callout = c }
set_callout inbound_icmp_error c e = record e { inbound_icmp_error_callout = c }
set_callout outbound_icmp_error c e = record e { outbound_icmp_error_callout = c }
set_callout outbound_tcp c e = record e { outbound_tcp_callout = c }
