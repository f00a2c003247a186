-- ===== src/Kmdf/Examples.antt =====
-- The theorems on the framework's drivers at concrete inputs.
use basic_windows_drivers.Base.{◌≡◌, refl, false, []}
use basic_windows_drivers.Base.SampleMacros.{macros}
use basic_windows_drivers.Base.NtStatus.{success, insufficient_resources}
use basic_windows_drivers.Kmdf.EmptyDriver as Empty
use basic_windows_drivers.Kmdf.TestDriver as Test
use basic_windows_drivers.Kmdf.Startup.{is_linked, pending_init, driver_entry-is_linked}

-- The framework refuses the device after the WDFDEVICE_INIT has been allocated.
abbrev refused : Empty.Replies
refused = record {
  safe_boot_mode = 0;
  driver_status = success;
  device_init = 24;
  name_status = success;
  device_status = insufficient_resources;
  device = 0;
  queue_status = success;
  device_object = 0;
  link_status = success;
}

abbrev idle : Empty.Globals
idle = record { wdf_driver_device = 0; driver_device_object = 0; trace = [] }

-- The framework makes the device and its interface, and no queue.
abbrev no_queue : Test.Replies
no_queue = record {
  device_status = success;
  device = 7;
  interface_status = success;
  queue_status = insufficient_resources;
}

driver_entry-is_linked_example :
    let (g, status) = Empty.driver_entry macros refused idle in
    (is_linked macros g.trace ≡ false) × (pending_init macros g.trace ≡ 24)
unfolding Empty.driver_entry Empty.create_device Empty.call
driver_entry-is_linked_example = driver_entry-is_linked macros refused idle refl
