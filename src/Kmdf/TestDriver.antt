-- ===== src/Kmdf/TestDriver.antt =====
-- src/WDFTestDriver: Driver.c, Device.c and Queue.c.
use basic_windows_drivers.Base.{ℕ, List, ◌∷◌, if◌then◌else◌}
use basic_windows_drivers.Base.NtStatus.{NtStatus, success, NtMacros}
use basic_windows_drivers.Kmdf.Framework.{
  parallel, Call, driver_create, device_create, queue_create, create_device_interface,
  request_complete, start_tracing, stop_tracing,
}

-- DriverEntry, with the status of WdfDriverCreate.
unfoldable pub driver_entry : NtMacros → NtStatus → List Call → List Call × NtStatus
driver_entry nt status trace =
    let trace = driver_create status ∷ start_tracing ∷ trace in
    if nt.nt_success status then (trace, status) else (stop_tracing ∷ trace, status)

-- WDFTestDriverEvtDriverContextCleanup, when the framework deletes the driver object.
unfoldable pub driver_context_cleanup : List Call → List Call
driver_context_cleanup trace = stop_tracing ∷ trace

-- The context of a device: PrivateDeviceData.
pub record DeviceContext : Type 0 where
  pub private_device_data : ℕ

-- What the framework answers to the creation of a device, with the device and its context.
pub record Replies : Type 0 where
  pub device_status : NtStatus
  pub device : ℕ
  pub interface_status : NtStatus
  pub queue_status : NtStatus

unfoldable pub queue_initialize : NtMacros → Replies → List Call → List Call × NtStatus
queue_initialize nt replies trace =
    (queue_create replies.device parallel replies.queue_status ∷ trace, replies.queue_status)

-- The part of WDFTestDriverCreateDevice from WdfDeviceCreateDeviceInterface.
unfoldable pub create_interface : NtMacros → Replies → List Call → List Call × NtStatus
create_interface nt replies trace =
    let trace = create_device_interface replies.device replies.interface_status ∷ trace in
    if nt.nt_success replies.interface_status
    then queue_initialize nt replies trace
    else (trace, replies.interface_status)

-- WDFTestDriverCreateDevice, with the context as the framework made it.
unfoldable pub create_device :
    NtMacros → Replies → ℕ → DeviceContext → List Call → List Call × DeviceContext × NtStatus
create_device nt replies device_init context trace =
    let trace = device_create device_init replies.device_status ∷ trace in
    let (with_interface, status) = create_interface nt replies trace in
    if nt.nt_success replies.device_status
    then (with_interface, record context { private_device_data = 0 }, status)
    else (trace, context, replies.device_status)

-- WDFTestDriverEvtDeviceAdd.
unfoldable pub device_add :
    NtMacros → Replies → ℕ → DeviceContext → List Call → List Call × DeviceContext × NtStatus
device_add nt replies device_init context trace = create_device nt replies device_init context trace

unfoldable pub io_device_control : ℕ → List Call → List Call
io_device_control request trace = request_complete request success ∷ trace

-- WDFTestDriverEvtIoStop, which only traces.
unfoldable pub io_stop : ℕ → List Call → List Call
io_stop request trace = trace
