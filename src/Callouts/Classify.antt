-- ===== src/Callouts/Classify.antt =====
-- The classify functions of src/WPFCalloutDriver/src/Callouts.cpp and GetProcessId of Util.cpp. The line
-- that GetProcessId prints is left out.
use basic_windows_drivers.Base.{
  ℕ, ◌+◌, ◌*◌, Bool, ◌&&◌, ◌||◌, not, List, ◌∷◌, [], Option, none, some, if◌then◌else◌, ◌==◌,
  get_or,
}
use basic_windows_drivers.Base.NtStatus.{NtStatus, success}
use basic_windows_drivers.Callouts.System.{
  Callout, outbound_ipv4, inbound_icmp_error, outbound_icmp_error, outbound_tcp, inbound_tcp,
  inbound_ipv4,
}

-- FWP_BYTE_BLOB: its size, and the bytes at its data pointer.
pub record ByteBlob : Type 0 where
  pub size : ℕ
  pub bytes : List ℕ

-- What the driver reads of a filter: the buffer of its provider context. `none` is a null pointer.
pub record ProviderContext : Type 0 where
  pub data_buffer : Option ByteBlob

pub record Filter : Type 0 where
  pub provider_context : Option ProviderContext

-- A DWORD in memory, its low byte first.
unfoldable pub read_dword : List ℕ → ℕ
read_dword bytes =
    get_or bytes 0 0
    + 256 * get_or bytes 1 0
    + 65536 * get_or bytes 2 0
    + 16777216 * get_or bytes 3 0

unfoldable pub get_process_id : Option Filter → ℕ
get_process_id none = 0
get_process_id (some filter) = elim filter.provider_context [
  | none ↦ 0
  | some context ↦ elim context.data_buffer [
    | none ↦ 0
    | some buffer ↦
        if buffer.size == 0
        then 0
        else if not (buffer.size == 4)
        then 0
        else read_dword buffer.bytes
  ]
]

pub data Action : Type 0 where
  action_continue : Action

-- The lines that the functions print. The line of Inbound::ICMPError carries the remote address, the
-- embedded local port, the type and the code.
pub data Line : Type 0 where
  invoked : Line
  matched_on_port : ℕ → Line
  inbound_transport : ℕ → Line
  outbound_transport : ℕ → Line
  outbound_error : Line
  inbound_error : ℕ → ℕ → ℕ → ℕ → Line
  layer_data_not_null : Line
  matched_process : Line

-- One call of a classify function: the process that runs, the filter, whether the layer's data are
-- there, and the fixed values that the functions read.
pub record Packet : Type 0 where
  pub running_process_id : ℕ
  pub filter : Option Filter
  pub layer_data : Bool
  pub local_port : ℕ
  pub remote_ip_address : ℕ
  pub embedded_local_port : ℕ
  pub icmp_type : ℕ
  pub icmp_code : ℕ

-- The driver's port, the lines printed, newest first, and the action answered.
pub record Inspection : Type 0 where
  pub matched_port : ℕ
  pub log : List Line
  pub action_type : Action

unfoldable pub print : Line → Inspection → Inspection
print line i = record i { log = line ∷ i.log }

-- The test that Outbound::TCP and Outbound::IPv4 pass on.
unfoldable pub of_running_process : Packet → Bool
of_running_process p =
    let process_id = get_process_id p.filter in
    not (process_id == 0 || p.running_process_id == 0 || not (process_id == p.running_process_id))

unfoldable pub classify_inbound_tcp : Packet → Inspection → Inspection
classify_inbound_tcp p i =
    let i = record i { action_type = action_continue } in
    let i =
      if not (i.matched_port == 0) && not (p.local_port == 0) && p.local_port == i.matched_port
      then print (matched_on_port p.local_port) i
      else i in
    print (inbound_transport p.local_port) i

unfoldable pub classify_outbound_tcp : Packet → Inspection → Inspection
classify_outbound_tcp p i =
    let i = record i { action_type = action_continue } in
    if not (of_running_process p)
    then i
    else print (outbound_transport p.local_port) (record i { matched_port = p.local_port })

unfoldable pub classify_inbound_ipv4 : Packet → Inspection → Inspection
classify_inbound_ipv4 p i = record i { action_type = action_continue }

unfoldable pub classify_outbound_icmp_error : Packet → Inspection → Inspection
classify_outbound_icmp_error p i = print outbound_error (record i { action_type = action_continue })

unfoldable pub classify_inbound_icmp_error : Packet → Inspection → Inspection
classify_inbound_icmp_error p i =
    print (inbound_error p.remote_ip_address p.embedded_local_port p.icmp_type p.icmp_code)
      (record i { action_type = action_continue })

unfoldable pub classify_outbound_ipv4 : Packet → Inspection → Inspection
classify_outbound_ipv4 p i =
    let i = record i { action_type = action_continue } in
    if not (of_running_process p)
    then i
    else print matched_process (if p.layer_data then print layer_data_not_null i else i)

-- The classify function of a callout's namespace.
unfoldable pub classify : Callout → Packet → Inspection → Inspection
classify outbound_tcp p i = classify_outbound_tcp p i
classify inbound_tcp p i = classify_inbound_tcp p i
classify outbound_ipv4 p i = classify_outbound_ipv4 p i
classify inbound_icmp_error p i = classify_inbound_icmp_error p i
classify outbound_icmp_error p i = classify_outbound_icmp_error p i
classify inbound_ipv4 p i = classify_inbound_ipv4 p i

-- The notify function, the same in every namespace.
unfoldable pub notify : Callout → Inspection → Inspection × NtStatus
notify c i = (print invoked i, success)

-- The packets that the platform hands to the callouts, oldest last.
unfoldable pub run : List (Callout × Packet) → Inspection → Inspection
run [] i = i
run ((c, p) ∷ earlier) i = classify c p (run earlier i)
