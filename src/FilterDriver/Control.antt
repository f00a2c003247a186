-- ===== src/FilterDriver/Control.antt =====
-- The control operations of src/FilterDriver/main.cpp on one module: FilterPause, FilterRestart,
-- FilterSetModuleOptions and FilterDevicePnPEventNotify. FILTER_ASSERT stops in the debugger and
-- changes nothing.
use basic_windows_drivers.Base.{
  ℕ, ◌%◌, Bool, true, false, List, [], ◌∷◌, Option, none, some, if◌then◌else◌, ◌==◌,
}
use basic_windows_drivers.Base.Word.{add32}
use basic_windows_drivers.FilterDriver.Ndis.{
  NdisStatus, FilterState, is_success, open_configuration, close_configuration,
  write_lookahead_size, device_pnp_event_notify,
}
use basic_windows_drivers.FilterDriver.Module.{
  MsFilter, M, ◌>>=◌, ◌>>◌, pure, gets, call, filter_acquire_lock, filter_release_lock, set_state,
}

unfoldable pub filter_pause : M NdisStatus
filter_pause = do
  filter_acquire_lock false
  set_state FilterState.pausing
  filter_release_lock false
  set_state FilterState.paused
  pure NdisStatus.success

-- NDIS_RESTART_ATTRIBUTES: a chain of attributes by their OIDs; the head's general attributes
-- include a LookaheadSize.
pub record RestartAttributes : Type 0 where
  pub oid : ℕ
  pub lookahead_size : ℕ
  pub next : List ℕ

-- `while (NextAttributes != NULL) NextAttributes = NextAttributes->Next`
unfoldable pub walk_attributes : List ℕ → Option ℕ
walk_attributes [] = none
walk_attributes (attribute ∷ rest) = walk_attributes rest

unfoldable pub modify_attributes : RestartAttributes → M RestartAttributes
unfolding walk_attributes
modify_attributes attributes = do
  call (write_lookahead_size 128)
  let end_of_list = walk_attributes attributes.next
  pure (record attributes { lookahead_size = 128 })

-- `opened` is what NdisOpenConfigurationEx answers. The result holds the attributes as they are
-- left. The last test of the handler is on the status that was just set to success.
unfoldable pub filter_restart :
    NdisStatus → Option RestartAttributes → M (NdisStatus × Option RestartAttributes)
unfolding modify_attributes
filter_restart opened restart_attributes = do
  call (open_configuration opened)
  if is_success opened then call close_configuration else pure tt
  attributes ← elim restart_attributes [
    | none ↦ pure none
    | some a ↦ (do b ← modify_attributes a; pure (some b))
  ]
  set_state FilterState.running
  let status : NdisStatus = NdisStatus.success
  if is_success status then pure tt else set_state FilterState.paused
  pure (status, attributes)

-- FilterDevicePnPEventNotify only passes the event on: each case of its switch is empty but for an
-- assertion.
unfoldable pub filter_device_pnp_event_notify : ℕ → M (Unit {0})
filter_device_pnp_event_notify event = do
  handle ← gets (λ f. f.filter_handle)
  call (device_pnp_event_notify handle event)

-- NDIS_FILTER_PARTIAL_CHARACTERISTICS: which of the four data path handlers are installed.
pub record PartialCharacteristics : Type 0 where
  pub send : Bool
  pub send_complete : Bool
  pub receive : Bool
  pub return : Bool

unfoldable pub default_chars : PartialCharacteristics
default_chars = record { send = true; send_complete = true; receive = true; return = true }

pub record ModuleOptions : Type 0 where
  pub handlers : PartialCharacteristics
  pub track_sends : Bool
  pub track_receives : Bool

-- The `switch (i)`, from both directions tracked and the default handlers.
unfoldable pub module_options : ℕ → ModuleOptions
unfolding default_chars
module_options i =
    if i == 0
    then record o { handlers = record d { receive = false }; track_receives = false }
    else if i == 1
    then record o { handlers = record d { return = false }; track_receives = false }
    else if i == 2
    then record o { handlers = record d { send = false }; track_sends = false }
    else if i == 3
    then record o { handlers = record d { send_complete = false }; track_sends = false }
    else if i == 4
    then record o { handlers = record d { receive = false; return = false } }
    else if i == 5
    then record o { handlers = record d { send = false; send_complete = false } }
    else if i == 6
    then record o {
      handlers = record { send = false; send_complete = false; receive = false; return = false };
    }
    else o
  where
    d : PartialCharacteristics
    d = default_chars

    o : ModuleOptions
    o = record { handlers = d; track_sends = true; track_receives = true }

abbrev b_false : Bool
b_false = false

-- `installed` is what NdisSetOptionalHandlers answers.
unfoldable pub set_optional_handlers : NdisStatus → M NdisStatus
unfolding module_options
set_optional_handlers installed w = (installed, record w { filter = changed })
  where
    f : MsFilter
    f = w.filter

    calls : ℕ
    calls = add32 f.calls_restart 1

    changed : MsFilter
    changed = record f {
      calls_restart = calls;
      track_sends = (module_options (calls % 8)).track_sends;
      track_receives = (module_options (calls % 8)).track_receives;
    }

unfoldable pub filter_set_module_options : NdisStatus → M NdisStatus
unfolding set_optional_handlers
filter_set_module_options installed =
    if b_false then set_optional_handlers installed else pure NdisStatus.success
