-- ===== src/NetworkFilter/Lifetime.antt =====
-- What the driver of src/NetworkFilterDriver2/main.cpp holds between DriverEntry and DriverUnload, and
-- which IRPs it completes.
use basic_windows_drivers.Base.{
  ℕ, ◌+◌, ◌≡◌, ◌≢◌, Bool, true, false, ◌&&◌, not, List, [], ◌∷◌, if◌then◌else◌, ◌==◌, arith,
}
use basic_windows_drivers.Base.NtStatus.{NtStatus}
use basic_windows_drivers.FilterDriver.Ndis.{NdisStatus, is_success}
use basic_windows_drivers.NetworkFilter.Driver.{
  Action, register_filter_driver, deregister_filter_driver, register_device, deregister_device,
  Driver, Replies, filter_deregister_device, filter_register_device, driver_unload, register,
  registered, driver_entry, Irp, filter_dispatch, filter_device_io_control, MajorFunction, create,
  cleanup, close, device_control, dispatch,
}

abbrev pub status_is_success : NtStatus → Bool
status_is_success NtStatus.success = true
status_is_success _ = false

abbrev pub is_device_control : MajorFunction → Bool
is_device_control device_control = true
is_device_control _ = false

-- The handles of the filter driver and of the device that NDIS has registered, or 0.
pub record Holdings : Type 0 where
  pub driver : ℕ
  pub device : ℕ

-- Deregistering another handle than the one that is registered changes nothing.
abbrev pub holdings_step : Action → Holdings → Holdings
holdings_step (register_filter_driver handlers s h) held = record held {
  driver = if is_success s then h else held.driver;
}
holdings_step (deregister_filter_driver h) held = record held {
  driver = if h == held.driver then 0 else held.driver;
}
holdings_step (register_device driver s h) held = record held {
  device = if is_success s then h else held.device;
}
holdings_step (deregister_device h) held = record held {
  device = if h == held.device then 0 else held.device;
}

abbrev pub holdings : List Action → Holdings
holdings [] = record { driver = 0; device = 0 }
holdings (a ∷ trace) = holdings_step a (holdings trace)

abbrev pub nothing : Holdings
nothing = record { driver = 0; device = 0 }

-- The system unloads a driver whose DriverEntry succeeded by its DriverUnload.
abbrev pub gone : Driver × NdisStatus → Driver
gone (d, status) = if is_success status then driver_unload d else d

-- If NDIS has nothing of the driver registered and does not give the device a null handle, then
-- DriverEntry either succeeds, and the driver and its device are registered, with the handles that NDIS
-- gave, or it fails, and neither is. Neither is when the driver is gone, after its DriverUnload if
-- DriverEntry succeeded.
pub driver_entry-gone :
    (driver_object : ℕ) (replies : Replies) (d : Driver)
    → holdings d.trace ≡ nothing
    → replies.device_handle ≢ 0
    → let (d', status) = driver_entry driver_object replies d in
      (holdings d'.trace ≡ (
        if is_success status
        then record { driver = replies.filter_handle; device = replies.device_handle }
        else nothing))
      × (holdings (gone (d', status)).trace ≡ nothing)
unfolding driver_entry register registered filter_register_device driver_unload
    filter_deregister_device
driver_entry-gone driver_object replies d h n = ground arith

-- Whatever its major function, an IRP is completed once, with success, if it has a file object; one for
-- device control that has none is refused and not completed.
pub dispatch-completed :
    (m : MajorFunction) (irp : Irp)
    → let (irp', status) = dispatch m irp in
      (irp'.completed ≡ irp.completed + (if status_is_success status then 1 else 0))
      × (status_is_success status ≡ not (is_device_control m && irp.file_object == 0))
unfolding dispatch filter_dispatch filter_device_io_control
dispatch-completed create irp = ground arith
dispatch-completed cleanup irp = ground arith
dispatch-completed close irp = ground arith
dispatch-completed device_control irp = ground arith
