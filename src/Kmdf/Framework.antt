-- ===== src/Kmdf/Framework.antt =====
-- The calls of the framework that the drivers src/EmptyKMDFDriver, src/KmdfHelloWorld and
-- src/WDFTestDriver make, each with what it answers. A handle or a pointer is a number, and null is 0.
use basic_windows_drivers.Base.{ℕ}
use basic_windows_drivers.Base.NtStatus.{NtStatus}

-- How a queue hands its requests out.
pub data Dispatching : Type 0 where
  sequential parallel : Dispatching

pub data Call : Type 0 where
  driver_create : NtStatus → Call
  control_device_init_allocate : ℕ → Call
  set_file_object_config : ℕ → Call
  set_device_type : ℕ → Call
  set_io_type : ℕ → Call
  assign_name : ℕ → NtStatus → Call
  device_create : ℕ → NtStatus → Call
  queue_create : ℕ → Dispatching → NtStatus → Call
  finish_initializing : ℕ → Call
  create_symbolic_link : ℕ → NtStatus → Call
  create_device_interface : ℕ → NtStatus → Call
  request_complete : ℕ → NtStatus → Call
  start_tracing : Call
  stop_tracing : Call
