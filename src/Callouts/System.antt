-- ===== src/Callouts/System.antt =====
-- The globals of src/WPFCalloutDriver (Globals.hpp) and the calls that
-- the driver makes of the system, newest first. What the system answers is part of the call.
use basic_windows_drivers.Base.{ℕ, List}
use basic_windows_drivers.Base.NtStatus.{NtStatus}

-- The namespaces of Callouts.hpp, each with a key, a classify and a notify function.
pub data Callout : Type 0 where
  outbound_ipv4 inbound_icmp_error outbound_icmp_error outbound_tcp inbound_tcp inbound_ipv4 :
      Callout

pub data Call : Type 0 where
  driver_create : NtStatus → Call
  device_init_allocate : ℕ → Call
  device_create : NtStatus → Call
  finish_initializing : ℕ → Call
  device_init_free : ℕ → Call
  -- The key, the namespaces of the classify and the notify function, and the answer.
  callout_register : Callout → Callout → Callout → NtStatus → Call
  callout_unregister : Callout → NtStatus → Call

pub record Globals : Type 0 where
  pub wdf_driver_device : ℕ
  pub driver_device_object : ℕ
  pub trace : List Call
