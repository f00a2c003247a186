-- ===== src/Callouts/Registration.antt =====
-- src/WPFCalloutDriver/src/Driver.cpp, and RegisterCallout, RegisterAllCallouts and
-- UnregisterAllCallouts of Callouts.cpp. A pointer is a number, and null is 0.
use basic_windows_drivers.Base.{ℕ, ◌∷◌, if◌then◌else◌, ◌==◌, ltb}
use basic_windows_drivers.Base.NtStatus.{
  NtStatus, success, invalid_handle, not_safe_mode_driver, failed_driver_entry, NtMacros,
}
use basic_windows_drivers.Callouts.System.{
  Callout, outbound_ipv4, inbound_icmp_error, outbound_icmp_error, outbound_tcp, inbound_tcp, Call,
  driver_create, device_init_allocate, device_create, finish_initializing, device_init_free,
  callout_register, callout_unregister, Globals,
}

unfoldable pub call : Call → Globals → Globals
call c g = record g { trace = c ∷ g.trace }

unfoldable pub unregister_all_callouts : (Callout → NtStatus) → Globals → Globals × NtStatus
unregister_all_callouts answers g =
    let g = call (callout_unregister outbound_ipv4 (answers outbound_ipv4)) g in
    let g = call (callout_unregister inbound_icmp_error (answers inbound_icmp_error)) g in
    let g = call (callout_unregister outbound_icmp_error (answers outbound_icmp_error)) g in
    let g = call (callout_unregister outbound_tcp (answers outbound_tcp)) g in
    let g = call (callout_unregister inbound_tcp (answers inbound_tcp)) g in (g, success)

unfoldable pub register_callout :
    (Callout → NtStatus) → Callout → Callout → Callout → Globals → Globals × NtStatus
register_callout answers key classify notify g =
    if g.driver_device_object == 0
    then (g, invalid_handle)
    else (call (callout_register key classify notify (answers key)) g, answers key)

unfoldable pub register_all_callouts :
    NtMacros → (Callout → NtStatus) → Globals → Globals × NtStatus
register_all_callouts nt answers g =
    let (g, status) = register_callout answers outbound_ipv4 outbound_ipv4 outbound_ipv4 g in
    if nt.nt_error status
    then (g, status)
    else let (g, status) =
        register_callout answers inbound_icmp_error inbound_icmp_error inbound_icmp_error g in
      if nt.nt_error status
      then (g, status)
      else let (g, status) =
          register_callout answers outbound_icmp_error outbound_icmp_error outbound_icmp_error g in
        if nt.nt_error status
        then (g, status)
        else let (g, status) = register_callout answers outbound_tcp outbound_tcp outbound_tcp g in
          if nt.nt_error status
          then (g, status)
          else register_callout answers inbound_tcp inbound_tcp inbound_tcp g

-- What the system answers to DriverEntry: the value at InitSafeBootMode, and each call's results.
-- WdfDeviceCreate leaves its new device and what it makes of deviceInit.
pub record EntryReplies : Type 0 where
  pub safe_boot_mode : ℕ
  pub driver_status : NtStatus
  pub device_init : ℕ
  pub device_status : NtStatus
  pub device_init_after : ℕ
  pub device : ℕ
  pub device_object : ℕ
  pub callout_status : Callout → NtStatus

-- The part of DriverEntry after the loop that is left by `break`.
unfoldable pub clean_up : ℕ → Globals → Globals
clean_up device_init g = if device_init == 0 then g else call (device_init_free device_init) g

-- From WdfControlFinishInitializing to the end.
unfoldable pub start_callouts : NtMacros → EntryReplies → NtStatus → Globals → Globals × NtStatus
start_callouts nt replies status g =
    let g = call (finish_initializing g.wdf_driver_device) g in
    let g = record g { driver_device_object = replies.device_object } in
    if replies.device_object == 0
    then (clean_up replies.device_init_after g, status)
    else let (g, status) = register_all_callouts nt replies.callout_status g in
      if nt.nt_error status then (clean_up replies.device_init_after g, status) else (g, status)

unfoldable pub driver_entry : NtMacros → EntryReplies → Globals → Globals × NtStatus
driver_entry nt replies g =
    if ltb 0 replies.safe_boot_mode
    then (g, not_safe_mode_driver)
    else let g = call (driver_create replies.driver_status) g in
      if nt.nt_error replies.driver_status
      then (g, replies.driver_status)
      else let g = call (device_init_allocate replies.device_init) g in
        if replies.device_init == 0
        then (g, failed_driver_entry)
        else let g = call (device_create replies.device_status) g in
          if nt.nt_error replies.device_status
          then (clean_up replies.device_init_after g, replies.device_status)
          else start_callouts nt replies replies.device_status
              (record g { wdf_driver_device = replies.device })

unfoldable pub driver_unload : (Callout → NtStatus) → Globals → Globals
driver_unload answers g = (unregister_all_callouts answers g).0
