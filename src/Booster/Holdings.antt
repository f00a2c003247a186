-- ===== src/Booster/Holdings.antt =====
-- What the driver of src/PriorityBooster holds of the system after DriverEntry and DriverUnload.
use basic_windows_drivers.Base.{◌≡◌, Bool, true, false, ◌&&◌, List, [], ◌∷◌, if◌then◌else◌, arith}
use basic_windows_drivers.Base.NtStatus.{NtStatus, NtMacros}
use basic_windows_drivers.Booster.Device.{
  Call, create_device, create_symbolic_link, delete_symbolic_link, delete_device, driver_entry,
}

-- The device and the link to it.
pub record Holdings : Type 0 where
  pub device : Bool
  pub link : Bool

abbrev pub nothing : Holdings
nothing = record { device = false; link = false }

abbrev holdings_step : NtMacros → Call → Holdings → Holdings
holdings_step nt (create_device s) h = if nt.nt_success s then record h { device = true } else h
holdings_step nt (create_symbolic_link s) h =
    if nt.nt_success s then record h { link = true } else h
holdings_step nt delete_symbolic_link h = record h { link = false }
holdings_step nt delete_device h = record h { device = false }
holdings_step nt _ h = h

unfoldable pub holdings : NtMacros → List Call → Holdings
holdings nt [] = nothing
holdings nt (c ∷ trace) = holdings_step nt c (holdings nt trace)

module _ (nt : NtMacros) (device_status link_status : NtStatus) (trace : List Call) where
  -- From a start with neither device nor link, DriverEntry answers success exactly if the device
  -- and its link were both made. A device that was made stays, also where the link was refused and
  -- DriverEntry answers that failure.
  pub driver_entry-kept :
      holdings nt trace ≡ nothing
      → (nt.nt_success (driver_entry nt device_status link_status trace).1
          ≡ nt.nt_success device_status && nt.nt_success link_status)
        × (holdings nt (driver_entry nt device_status link_status trace).0 ≡ record {
          device = nt.nt_success device_status;
          link = nt.nt_success device_status && nt.nt_success link_status;
        })
  unfolding driver_entry holdings
  driver_entry-kept h = ground (arith, nt.nt_success_success)
