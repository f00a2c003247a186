-- ===== src/FilterDriver/Resources.antt =====
-- What the driver (src/FilterDriver/main.cpp) holds of the system between DriverEntry and
-- DriverUnload, and what its device answers.
use basic_windows_drivers.Base.{
  ℕ, ◌≡◌, ◌≢◌, refl, Bool, true, false, List, [], ◌∷◌, some, if◌then◌else◌, arith,
}
use basic_windows_drivers.Base.NtStatus.{NtStatus}
use basic_windows_drivers.FilterDriver.Ndis.{NdisStatus, is_success}
use basic_windows_drivers.FilterDriver.Driver.{
  ListApi, Driver, DriverAction, allocate_list_lock, free_list_lock, register_filter_driver,
  deregister_filter_driver, register_device, deregister_device,
}
use basic_windows_drivers.FilterDriver.Entry.{
  EntryReplies, Irp, MajorFunction, Routine, dispatch_table, call_routine, driver_entry,
  driver_unload,
}

-- The list's lock, the driver's registration and its device.
pub record Holdings : Type 0 where
  pub lock : Bool
  pub driver : Bool
  pub device : Bool

abbrev pub nothing : Holdings
nothing = record { lock = false; driver = false; device = false }

abbrev pub everything : Holdings
everything = record { lock = true; driver = true; device = true }

abbrev holdings_step : DriverAction → Holdings → Holdings
holdings_step allocate_list_lock h = record h { lock = true }
holdings_step free_list_lock h = record h { lock = false }
holdings_step (register_filter_driver _ s) h = record h {
  driver = if is_success s then true else h.driver;
}
holdings_step (deregister_filter_driver _) h = record h { driver = false }
holdings_step (register_device s) h = record h { device = if is_success s then true else h.device }
holdings_step (deregister_device _) h = record h { device = false }
holdings_step _ h = h

-- What is held after a trace.
abbrev pub holdings : List DriverAction → Holdings
holdings [] = nothing
holdings (a ∷ trace) = holdings_step a (holdings trace)

module _ {Links : Type 0} (api : ListApi Links) where
  -- DriverEntry takes all or nothing. If it answers success, the lock, the driver's registration and
  -- its device are held; if it answers anything else, whatever failed, none of them is.
  pub driver_entry-holdings :
      (driver_object : ℕ) (replies : EntryReplies) (d : Driver Links)
      → holdings d.trace ≡ nothing
      → let (d', status) = driver_entry api driver_object replies d in
        holdings d'.trace ≡ (if is_success status then everything else nothing)
  unfolding driver_entry
  driver_entry-holdings driver_object replies d h = ground arith

  -- DriverUnload gives back all that a successful DriverEntry took, in both builds, as long as NDIS
  -- does not give the device a null handle.
  pub driver_unload-driver_entry :
      (dbg : Bool) (driver_object : ℕ) (replies : EntryReplies) (d : Driver Links)
      → holdings d.trace ≡ nothing
      → replies.device_handle ≢ 0
      → (driver_entry api driver_object replies d).1 ≡ NdisStatus.success
      → holdings (driver_unload api dbg (driver_entry api driver_object replies d).0).trace
        ≡ nothing
  unfolding driver_entry driver_unload
  driver_unload-driver_entry dbg driver_object replies d h n s = ground arith

-- A device control IRP has a dispatch routine, which returns success and neither completes the IRP
-- nor sets its status: whatever IRP is sent stays pending for ever.
pub device_control_pending :
    (irp : Irp)
    → (routine : Routine) × (dispatch_table MajorFunction.device_control ≡ some routine)
      × (call_routine routine irp ≡ (irp, NtStatus.success))
unfolding dispatch_table call_routine
device_control_pending irp = (_, refl, refl)
