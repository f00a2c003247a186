-- ===== src/Engine/Handles.antt =====
-- The shared handle of src/WFPController/WindowsFilteringPlatform: the engine and its callouts hold
-- std::shared_ptr to one session, and the last of them to let go closes it. A pointer is known by its
-- handle, and an empty one by 0. FwpmEngineOpen0 is documented to give a new handle that is not null, so
-- that pointers with one handle are copies of each other (Engine.Sessions.GivesNewHandles).
use basic_windows_drivers.Base.{ℕ, Bool, ◌||◌, ◌∷◌, if◌then◌else◌, ◌==◌}
use basic_windows_drivers.Engine.Platform.{Request, engine_close, Answer, made, Platform}
use basic_windows_drivers.Engine.State.{Engine, World, Slot, callout_of, set_callout}

-- Who holds a session.
pub data Holder : Type 0 where
  itself : Holder
  member : Slot → Holder

abbrev pub handle_of : Holder → Engine → ℕ
handle_of itself e = e.engine_handle
handle_of (member s) e = (callout_of s e).engine_handle

abbrev pub set_handle : Holder → ℕ → Engine → Engine
set_handle itself h e = record e { engine_handle = h }
set_handle (member s) h e = set_callout s (record (callout_of s e) { engine_handle = h }) e

-- Whether any pointer to the session is left.
abbrev pub is_held : ℕ → Engine → Bool
is_held h e =
    e.engine_handle == h
    || e.outbound_ipv4_callout.engine_handle == h
    || e.inbound_icmp_error_callout.engine_handle == h
    || e.outbound_icmp_error_callout.engine_handle == h
    || e.outbound_tcp_callout.engine_handle == h

module _ (platform : Platform) where
  unfoldable pub perform : Request → World → World × Answer
  perform request w =
      let answer = platform w.trace request in
      (record w { trace = made request answer ∷ w.trace }, answer)

  -- The deleter of the shared pointer, if the session has no pointer left. It only prints a status that is
  -- not ERROR_SUCCESS.
  unfoldable pub release : ℕ → World → World
  unfolding perform
  release h w = if h == 0 || is_held h w.engine then w else (perform (engine_close h) w).0

  -- `holder = handle` on shared pointers: the old session is let go.
  unfoldable pub assign : Holder → ℕ → World → World
  assign holder h w =
      release (handle_of holder w.engine) (record w { engine = set_handle holder h w.engine })
