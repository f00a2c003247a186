-- ===== src/NetworkFilter/Examples.antt =====
-- The theorems on the NDIS filter skeleton at concrete inputs.
use basic_windows_drivers.Base.{◌≡◌, refl, false, [], none, arith}
use basic_windows_drivers.FilterDriver.Ndis.{NdisStatus}
use basic_windows_drivers.NetworkFilter.Driver.{
  Driver, Replies, registered, filter_register_device, driver_entry, Irp,
}
use basic_windows_drivers.NetworkFilter.Lifetime.{holdings, nothing, gone, driver_entry-gone}

abbrev unloaded : Driver
unloaded = record {
  ndis_filter_device_handle = 0;
  filter_driver_handle = 0;
  filter_driver_object = 0;
  ndis_device_object = 0;
  extension = none;
  can_unload = false;
  trace = [];
}

-- NDIS takes the driver and refuses its device.
abbrev no_device : Replies
no_device = record {
  filter_status = NdisStatus.success;
  filter_handle = 11;
  device_status = NdisStatus.resources;
  device_handle = 12;
  device_object = 13;
}

-- A request whose stack location has no file object.
abbrev orphan : Irp
orphan = record { file_object = 0; status = none; information = 0; completed = 0 }

driver_entry-gone_example :
    (holdings (driver_entry 5 no_device unloaded).0.trace ≡ nothing)
    × (holdings (gone (driver_entry 5 no_device unloaded)).trace ≡ nothing)
unfolding driver_entry registered filter_register_device
driver_entry-gone_example = driver_entry-gone 5 no_device unloaded refl (omega arith)
