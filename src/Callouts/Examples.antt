-- ===== src/Callouts/Examples.antt =====
-- The theorems on src/WPFCalloutDriver at concrete inputs.
use basic_windows_drivers.Base.{◌≡◌, ◌≢◌, ◌↔◌, refl, true, List, [], ◌∷◌, some, All, arith}
use basic_windows_drivers.Base.NtStatus.{NtStatus, success, unsuccessful}
use basic_windows_drivers.Base.SampleMacros.{macros}
use basic_windows_drivers.Callouts.System.{
  Callout, outbound_ipv4, inbound_icmp_error, outbound_icmp_error, outbound_tcp, inbound_tcp,
  Globals,
}
use basic_windows_drivers.Callouts.Registration.{EntryReplies, driver_entry}
use basic_windows_drivers.Callouts.Classify.{
  Filter, Packet, read_dword, get_process_id, of_running_process, classify, classify_inbound_tcp,
  classify_outbound_tcp, print, run,
}
use basic_windows_drivers.Callouts.Registered.{registered, accepted, own, driver_entry-registered}
use basic_windows_drivers.Callouts.Matching.{Reported, reported, nothing_matched, run-Reported}
use basic_windows_drivers.Callouts.ProcessId.{
  dword_bytes, add_context, of_running_process-add_context,
}

abbrev pub start : Globals
start = record { wdf_driver_device = 0; driver_device_object = 0; trace = [] }

abbrev refused_third : Callout → NtStatus
refused_third outbound_icmp_error = unsuccessful
refused_third _ = success

abbrev pub good : EntryReplies
good = record {
  safe_boot_mode = 0;
  driver_status = success;
  device_init = 16;
  device_status = success;
  device_init_after = 0;
  device = 32;
  device_object = 48;
  callout_status = λ c. success;
}

abbrev refused : EntryReplies
refused = record good { callout_status = refused_third }

abbrev no_object : EntryReplies
no_object = record good { device_object = 0 }

driver_entry-registered_example :
    registered macros (driver_entry macros refused start).0.trace
    ≡ own outbound_ipv4 ∷ own inbound_icmp_error ∷ []
unfolding registered accepted
driver_entry-registered_example = driver_entry-registered macros refused start refl

abbrev of_controller : Filter
of_controller = record { provider_context = some (add_context 1234) }

abbrev packet : Packet
packet = record {
  running_process_id = 1234;
  filter = some of_controller;
  layer_data = true;
  local_port = 8080;
  remote_ip_address = 0;
  embedded_local_port = 0;
  icmp_type = 0;
  icmp_code = 0;
}

abbrev packets : List (Callout × Packet)
packets = (inbound_tcp, packet) ∷ (outbound_tcp, packet) ∷ (inbound_tcp, packet) ∷ []

reported_ports : reported (run packets nothing_matched).log ≡ 8080 ∷ []
unfolding run classify classify_inbound_tcp classify_outbound_tcp print of_running_process
    get_process_id add_context read_dword dword_bytes
reported_ports = refl

run-Reported_example : All (Reported packets) (reported (run packets nothing_matched).log)
run-Reported_example = run-Reported packets

of_running_process-add_context_example :
    (of_running_process packet ≡ true)
    ↔ ((packet.running_process_id ≡ packet.running_process_id) × (packet.running_process_id ≢ 0))
of_running_process-add_context_example =
    of_running_process-add_context 1234 packet of_controller (omega arith) refl refl
