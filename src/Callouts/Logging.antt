-- ===== src/Callouts/Logging.antt =====
-- LogFilter of src/WPFCalloutDriver/src/Util.cpp, which nothing calls: the line that it prints.
use basic_windows_drivers.Base.{◌≡◌, ◌≢◌, refl, Option, none, some, if◌then◌else◌, ◌==◌, arith}
use basic_windows_drivers.Callouts.Classify.{Filter, get_process_id}

pub data FilterLine : Type 0 where
  filter_is_null provider_context_is_null data_buffer_is_null data_buffer_is_empty : FilterLine

unfoldable pub log_filter : Option Filter → Option FilterLine
log_filter none = some FilterLine.filter_is_null
log_filter (some filter) = elim filter.provider_context [
  | none ↦ some FilterLine.provider_context_is_null
  | some context ↦ elim context.data_buffer [
    | none ↦ some FilterLine.data_buffer_is_null
    | some buffer ↦ if buffer.size == 0 then some FilterLine.data_buffer_is_empty else none
  ]
]

-- Of a filter from which GetProcessId reads a process, LogFilter has nothing to print.
pub log_filter-get_process_id :
    (filter : Option Filter) → get_process_id filter ≢ 0 → log_filter filter ≡ none
unfolding get_process_id log_filter
log_filter-get_process_id none n = absurd (n refl)
log_filter-get_process_id (some filter) n = ground arith
