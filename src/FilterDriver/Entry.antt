-- ===== src/FilterDriver/Entry.antt =====
-- DriverEntry, DriverUnload, the registration of the driver's device and the device's dispatch
-- routines, src/FilterDriver/main.cpp.
use basic_windows_drivers.Base.{
  ℕ, Bool, ◌||◌, not, List, [], ◌∷◌, Option, none, some, if◌then◌else◌, ◌==◌,
}
use basic_windows_drivers.Base.NtStatus.{NtStatus}
use basic_windows_drivers.FilterDriver.Ndis.{NdisStatus, is_success}
use basic_windows_drivers.FilterDriver.Driver.{
  ListApi, Driver, Handler, allocate_list_lock, free_list_lock, acquire_list_lock,
  release_list_lock, register_filter_driver, deregister_filter_driver, register_device,
  deregister_device,
}

-- The major function codes for which the driver's device has a dispatch routine, and the rest.
pub data MajorFunction : Type 0 where
  create cleanup close device_control : MajorFunction
  other_function : ℕ → MajorFunction

pub data Routine : Type 0 where
  filter_dispatch_routine filter_device_io_control_routine : Routine

-- An IRP: its major function, its IoStatus.Status once set, and how often it was completed.
pub record Irp : Type 0 where
  pub major_function : MajorFunction
  pub status : Option NtStatus
  pub completed : ℕ

-- Each case of the switch is empty.
unfoldable pub filter_dispatch : Irp → Irp × NtStatus
filter_dispatch irp = (
  record irp { status = some NtStatus.success; completed = ℕ.suc irp.completed },
  NtStatus.success,
)

unfoldable pub filter_device_io_control : Irp → Irp × NtStatus
filter_device_io_control irp = (irp, NtStatus.success)

-- DispatchTable, zeroed but for four entries.
unfoldable pub dispatch_table : MajorFunction → Option Routine
dispatch_table MajorFunction.create = some filter_dispatch_routine
dispatch_table MajorFunction.cleanup = some filter_dispatch_routine
dispatch_table MajorFunction.close = some filter_dispatch_routine
dispatch_table MajorFunction.device_control = some filter_device_io_control_routine
dispatch_table (other_function n) = none

unfoldable pub call_routine : Routine → Irp → Irp × NtStatus
unfolding filter_dispatch filter_device_io_control
call_routine filter_dispatch_routine irp = filter_dispatch irp
call_routine filter_device_io_control_routine irp = filter_device_io_control irp

-- What the system answers to DriverEntry's calls.
pub record EntryReplies : Type 0 where
  pub registered : NdisStatus
  pub driver_handle : ℕ
  pub device_registered : NdisStatus
  pub device_object : ℕ
  pub device_handle : ℕ

-- 'FTDR', a multi-character literal: the first character is the highest byte.
abbrev pub ftdr : ℕ
ftdr = 0x46544452

-- FChars: all the handlers but those left as comments.
unfoldable pub filter_characteristics : List Handler
filter_characteristics =
    Handler.set_options ∷ Handler.attach ∷ Handler.detach ∷ Handler.restart ∷ Handler.pause
    ∷ Handler.set_filter_module_options ∷ Handler.send_net_buffer_lists
    ∷ Handler.return_net_buffer_lists ∷ Handler.send_net_buffer_lists_complete
    ∷ Handler.receive_net_buffer_lists ∷ Handler.device_pnp_event_notify ∷ []

module _ {Links : Type 0} (api : ListApi Links) where
  open api use {initialize_list_head}

  unfoldable pub filter_register_device : EntryReplies → Driver Links → Driver Links × NdisStatus
  filter_register_device replies d =
      let status = replies.device_registered in
      let asked = record d { trace = register_device status ∷ d.trace } in
      if is_success status
      then (
        record asked {
          ndis_device_object = replies.device_object;
          ndis_filter_device_handle = replies.device_handle;
          device_extension = some (record { signature = ftdr; handle = d.filter_driver_handle });
        },
        status,
      )
      else (asked, status)

  unfoldable pub filter_deregister_device : Driver Links → Driver Links
  filter_deregister_device d = if d.ndis_filter_device_handle == 0 then d else record d {
    ndis_filter_device_handle = 0;
    trace = deregister_device d.ndis_filter_device_handle ∷ d.trace;
  }

  -- The test compares both handles with the driver's own.
  unfoldable pub filter_register_options : Driver Links → ℕ → ℕ → NdisStatus
  filter_register_options d ndis_filter_driver_handle filter_driver_context =
      if not (ndis_filter_driver_handle == d.filter_driver_handle)
        || not (filter_driver_context == d.filter_driver_object)
      then NdisStatus.invalid_parameter
      else NdisStatus.success

  -- The steps of DriverEntry up to the registration of the filter driver.
  unfoldable pub begin_entry : ℕ → EntryReplies → Driver Links → Driver Links
  begin_entry driver_object replies d = record d {
    filter_driver_object = driver_object;
    filter_driver_handle = replies.driver_handle;
    filter_module_list = initialize_list_head;
    trace =
        register_filter_driver filter_characteristics replies.registered
        ∷ allocate_list_lock
        ∷ d.trace;
  }

  unfoldable pub driver_entry : ℕ → EntryReplies → Driver Links → Driver Links × NdisStatus
  unfolding begin_entry filter_register_device
  driver_entry driver_object replies d =
      let begun = begin_entry driver_object replies d in
      let (with_device, status) = filter_register_device replies begun in
      if is_success replies.registered
      then (if is_success status then (with_device, status) else (
        record with_device {
          trace =
              free_list_lock
              ∷ deregister_filter_driver with_device.filter_driver_handle
              ∷ with_device.trace;
        },
        status,
      ))
      else (record begun { trace = free_list_lock ∷ begun.trace }, replies.registered)

  -- In a debug build the list is looked at, under its lock, for an assertion.
  unfoldable pub driver_unload : Bool → Driver Links → Driver Links
  unfolding filter_deregister_device
  driver_unload dbg d =
      let e = filter_deregister_device d in
      let f = record e { trace = deregister_filter_driver e.filter_driver_handle ∷ e.trace } in
      let g =
        if dbg then record f { trace = release_list_lock ∷ acquire_list_lock ∷ f.trace } else f in
      record g { trace = free_list_lock ∷ g.trace }
