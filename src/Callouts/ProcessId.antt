-- ===== src/Callouts/ProcessId.antt =====
-- The process identifier that the controller puts in a filter's context, AddContext of
-- src/WFPController/WindowsFilteringPlatform/wfpcontroller.wfp.cpp, and GetProcessId of
-- src/WPFCalloutDriver/src/Util.cpp, which reads it.
use basic_windows_drivers.Base.{ℕ, ◌/◌, ◌%◌, ◌<◌, ◌≡◌, ◌≢◌, ◌↔◌, true, List, [], ◌∷◌, some, arith}
use basic_windows_drivers.Callouts.Classify.{
  ProviderContext, Filter, read_dword, get_process_id, Packet, of_running_process,
}

-- The bytes of a DWORD in memory, the low one first.
unfoldable pub dword_bytes : ℕ → List ℕ
dword_bytes n = n % 256 ∷ n / 256 % 256 ∷ n / 65536 % 256 ∷ n / 16777216 % 256 ∷ []

-- The context of the controller: a blob over its current process identifier.
unfoldable pub add_context : ℕ → ProviderContext
add_context current_process_id = record {
  data_buffer = some (record { size = 4; bytes = dword_bytes current_process_id });
}

read_dword-dword_bytes : (n : ℕ) → n < 4294967296 → read_dword (dword_bytes n) ≡ n
unfolding read_dword dword_bytes
read_dword-dword_bytes n h = omega arith

-- The driver reads back the process identifier, a 32-bit number, that the controller put in the
-- filter's context.
pub get_process_id-add_context :
    (process_id : ℕ) (f : Filter)
    → process_id < 4294967296
    → f.provider_context ≡ some (add_context process_id)
    → get_process_id (some f) ≡ process_id
unfolding get_process_id add_context
get_process_id-add_context process_id f h e = ground (arith, read_dword-dword_bytes process_id h)

-- With a context of the controller, whose process identifier is a 32-bit number, a classify
-- function takes a packet for one of the running process exactly if the controller is that process
-- and its identifier is not 0.
pub of_running_process-add_context :
    (process_id : ℕ) (p : Packet) (f : Filter)
    → process_id < 4294967296
    → p.filter ≡ some f
    → f.provider_context ≡ some (add_context process_id)
    → (of_running_process p ≡ true) ↔ ((process_id ≡ p.running_process_id) × (process_id ≢ 0))
unfolding of_running_process
of_running_process-add_context process_id p f h e e' =
    ground (arith, get_process_id-add_context process_id f h e')
