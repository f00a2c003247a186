-- ===== src/Keys/Agreement.antt =====
-- The callouts of the controller, and what the driver registers under their keys.
use basic_windows_drivers.Base.{
  ℕ, ◌≡◌, ◌≢◌, refl, ap, ◌∙◌, false, List, [], ◌∷◌, map, Option, none, some, if◌then◌else◌, ◌==◌,
}
use basic_windows_drivers.Base.NtStatus.{NtMacros}
use basic_windows_drivers.Callouts.System as Driver
use basic_windows_drivers.Callouts.Registration.{EntryReplies, driver_entry}
use basic_windows_drivers.Callouts.Registered.{
  Registration, own, all_callouts, registered, driver_entry-all_callouts,
}
use basic_windows_drivers.Engine.Platform.{Guid, Platform, engine_open}
use basic_windows_drivers.Engine.State.{
  World, Slot, outbound_ipv4, inbound_icmp_error, outbound_icmp_error, outbound_tcp,
}
use basic_windows_drivers.Engine.Installed.{present, key_of, IsObliging}
use basic_windows_drivers.Engine.Refinement.{AllAt}
use basic_windows_drivers.Engine.Controller.{set_up}
use basic_windows_drivers.Engine.Steps.{IsWilling}
use basic_windows_drivers.Engine.SetUp.{set_up-present}
use basic_windows_drivers.Keys.{GuidValue, controller_key, driver_key, same_key}

-- The registration that the platform finds for a key.
unfoldable pub find_registration : GuidValue → List Registration → Option Registration
find_registration key [] = none
find_registration key (r ∷ rs) =
    let rest = find_registration key rs in if same_key (driver_key (r.0)) key then some r else rest

unfoldable pub functions_of : Guid → List Registration → Option Registration
functions_of key rs = elim (controller_key key) [
  | none ↦ none
  | some value ↦ find_registration value rs
]

-- The namespace of the driver with the name of each of the controller's callouts.
abbrev pub namesake : Slot → Driver.Callout
namesake outbound_ipv4 = Driver.outbound_ipv4
namesake inbound_icmp_error = Driver.inbound_icmp_error
namesake outbound_icmp_error = Driver.outbound_icmp_error
namesake outbound_tcp = Driver.outbound_tcp

functions_of-all :
    (s : Slot) → functions_of (key_of s) (map own all_callouts) ≡ some (own (namesake s))
unfolding functions_of find_registration controller_key driver_key same_key
functions_of-all outbound_ipv4 = refl
functions_of-all inbound_icmp_error = refl
functions_of-all outbound_icmp_error = refl
functions_of-all outbound_tcp = refl

-- The callout driver starts with no callout registered, its DriverEntry answers no error, and it was given
-- a device object. If then the controller runs "all" with a platform that refuses nothing, gives an
-- identifier that is not 0 to each callout and a handle that is not null to the session, where each member
-- of the engine was in step with the platform before, then each of the controller's four callouts is held
-- in that session, and what the driver has registered under its key are the functions of the driver's
-- callout of the same name.
pub set_up-functions_of :
    (nt : NtMacros) (r : EntryReplies) (g : Driver.Globals) (platform : Platform) (process_id : ℕ)
    (w : World) (s : Slot)
    → registered nt g.trace ≡ []
    → (r.device_object == 0) ≡ false
    → nt.nt_error (driver_entry nt r g).1 ≡ false
    → IsWilling platform
    → IsObliging platform
    → (platform w.trace engine_open).number ≢ 0
    → AllAt w
    → (present (key_of s) (set_up platform process_id w).0.trace
        ≡ (platform w.trace engine_open).number)
      × (functions_of (key_of s) (registered nt (driver_entry nt r g).0.trace)
          ≡ some (own (namesake s)))
set_up-functions_of nt r g platform process_id w s none_yet object ok willing obliging n a =
    let (out, own_handle, held) = set_up-present platform process_id w s willing obliging n a in
    (
      held,
      ap (functions_of (key_of s)) (driver_entry-all_callouts nt r g none_yet object ok)
          ∙ functions_of-all s,
    )
