-- ===== src/Kmdf/EmptyDriver.antt =====
-- src/EmptyKMDFDriver: DriverEntry of Driver.cpp and the callbacks of IO.cpp.
use basic_windows_drivers.Base.{ℕ, List, ◌∷◌, if◌then◌else◌, ◌==◌, ltb}
use basic_windows_drivers.Base.NtStatus.{
  NtStatus, success, not_safe_mode_driver, failed_driver_entry, NtMacros,
}
use basic_windows_drivers.Kmdf.Framework.{
  sequential, Call, driver_create, control_device_init_allocate, set_file_object_config,
  set_device_type, set_io_type, assign_name, device_create, queue_create, finish_initializing,
  create_symbolic_link, request_complete,
}

-- WDFDriverDevice and DriverDeviceObject, and the calls made so far, newest first.
pub record Globals : Type 0 where
  pub wdf_driver_device : ℕ
  pub driver_device_object : ℕ
  pub trace : List Call

-- The value at InitSafeBootMode, and what the framework answers to each call of DriverEntry.
pub record Replies : Type 0 where
  pub safe_boot_mode : ℕ
  pub driver_status : NtStatus
  pub device_init : ℕ
  pub name_status : NtStatus
  pub device_status : NtStatus
  pub device : ℕ
  pub queue_status : NtStatus
  pub device_object : ℕ
  pub link_status : NtStatus

unfoldable pub call : Call → Globals → Globals
call c g = record g { trace = c ∷ g.trace }

-- From WdfControlFinishInitializing to the end. Without a device object the status is still that of the
-- queue.
unfoldable pub finish : NtMacros → Replies → Globals → Globals × NtStatus
finish nt replies g =
    let g = call (finish_initializing g.wdf_driver_device) g in
    let g = record g { driver_device_object = replies.device_object } in
    if replies.device_object == 0
    then (g, replies.queue_status)
    else let linked = call (create_symbolic_link g.wdf_driver_device replies.link_status) g in
      if nt.nt_error replies.link_status then (linked, replies.link_status) else (linked, success)

-- From WdfDeviceInitAssignName to WdfIoQueueCreate.
unfoldable pub create_device : NtMacros → Replies → Globals → Globals × NtStatus
create_device nt replies g =
    let g = call (assign_name replies.device_init replies.name_status) g in
    if nt.nt_error replies.name_status
    then (g, replies.name_status)
    else let g = call (device_create replies.device_init replies.device_status) g in
      if nt.nt_error replies.device_status
      then (g, replies.device_status)
      else let g = record g { wdf_driver_device = replies.device } in
        let g = call (queue_create replies.device sequential replies.queue_status) g in
        if nt.nt_error replies.queue_status then (g, replies.queue_status) else finish nt replies g

-- FILE_DEVICE_UNKNOWN and WdfDeviceIoBuffered.
abbrev file_device_unknown : ℕ
file_device_unknown = 0x22

abbrev wdf_device_io_buffered : ℕ
wdf_device_io_buffered = 2

unfoldable pub driver_entry : NtMacros → Replies → Globals → Globals × NtStatus
driver_entry nt replies g =
    if ltb 0 replies.safe_boot_mode
    then (g, not_safe_mode_driver)
    else let g =
        call (driver_create replies.driver_status)
          (record g { wdf_driver_device = 0; driver_device_object = 0 }) in
      if nt.nt_error replies.driver_status
      then (g, replies.driver_status)
      else let g = call (control_device_init_allocate replies.device_init) g in
        if replies.device_init == 0
        then (g, failed_driver_entry)
        else let g = call (set_file_object_config replies.device_init) g in
          let g = call (set_device_type file_device_unknown) g in
          create_device nt replies (call (set_io_type wdf_device_io_buffered) g)

-- A request that the framework hands to a callback of IO.cpp, and which callback that is.
pub data Event : Type 0 where
  file_create io_read io_write io_default io_device_control : Event

unfoldable pub callback : Event → ℕ → Globals → Globals
callback file_create request g = call (request_complete request success) g
callback io_read request g = call (request_complete request success) g
callback io_write request g = call (request_complete request success) g
callback io_default request g = call (request_complete request success) g
callback io_device_control request g = call (request_complete request success) g

-- EvtWdfDriverDeviceAdd, which only prints.
unfoldable pub device_add : Globals → Globals × NtStatus
device_add g = (g, success)
