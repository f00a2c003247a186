-- ===== src/Kmdf/HelloWorld.antt =====
-- src/KmdfHelloWorld/Driver.cpp.
use basic_windows_drivers.Base.{ℕ, List, ◌∷◌}
use basic_windows_drivers.Base.NtStatus.{NtStatus}
use basic_windows_drivers.Kmdf.Framework.{Call, driver_create, device_create}

-- With the status of WdfDriverCreate.
unfoldable pub driver_entry : NtStatus → List Call → List Call × NtStatus
driver_entry status trace = (driver_create status ∷ trace, status)

-- KmdfHelloWorldEvtDeviceAdd, with the status of WdfDeviceCreate.
unfoldable pub device_add : ℕ → NtStatus → List Call → List Call × NtStatus
device_add device_init status trace = (device_create device_init status ∷ trace, status)
