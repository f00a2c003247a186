-- ===== src/Keys/Examples.antt =====
-- The theorem on the keys at a driver that starts and a platform that does all that it is asked to.
use basic_windows_drivers.Base.{◌≡◌, refl, some, arith}
use basic_windows_drivers.Base.SampleMacros.{macros}
use basic_windows_drivers.Callouts.System as Driver
use basic_windows_drivers.Callouts.Registration.{
  driver_entry, start_callouts, register_all_callouts, register_callout, call,
}
use basic_windows_drivers.Callouts.Registered.{registered, own}
use basic_windows_drivers.Callouts.Examples.{start, good}
use basic_windows_drivers.Engine.State.{outbound_icmp_error}
use basic_windows_drivers.Engine.Installed.{present, key_of}
use basic_windows_drivers.Engine.Controller.{set_up}
use basic_windows_drivers.Engine.Ending.{fresh}
use basic_windows_drivers.Engine.Leavings.{fresh-AllAt}
use basic_windows_drivers.Engine.Examples.{willing, willing-IsWilling, willing-IsObliging}
use basic_windows_drivers.Keys.Agreement.{functions_of, set_up-functions_of}

set_up-functions_of_example :
    (present (key_of outbound_icmp_error) (set_up willing 42 fresh.world).0.trace ≡ 7)
    × (functions_of
          (key_of outbound_icmp_error)
          (registered macros (driver_entry macros good start).0.trace)
        ≡ some (own Driver.outbound_icmp_error))
unfolding driver_entry start_callouts register_all_callouts register_callout call registered
set_up-functions_of_example =
    set_up-functions_of macros good start willing 42 fresh.world outbound_icmp_error refl refl refl
      willing-IsWilling willing-IsObliging (omega arith) fresh-AllAt
