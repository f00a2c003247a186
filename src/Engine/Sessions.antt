-- ===== src/Engine/Sessions.antt =====
-- The sessions that the engine of src/WFPController/WindowsFilteringPlatform opens and closes: which are
-- open after a trace, and which the engine and its callouts hold.
use basic_windows_drivers.Base.{
  ℕ, ◌+◌, ◌-◌, ◌≡◌, ◌≢◌, Bool, true, not, ◌&&◌, ◌||◌, List, [], ◌∷◌, if◌then◌else◌, ◌==◌, arith,
}
use basic_windows_drivers.Engine.Platform.{
  Request, engine_open, engine_close, provider_add, provider_context_add, sublayer_add, callout_add,
  callout_delete_by_key, filter_add, Call, made, Platform,
}
use basic_windows_drivers.Engine.State.{
  World, outbound_ipv4, inbound_icmp_error, outbound_icmp_error, outbound_tcp,
}
use basic_windows_drivers.Engine.Handles.{Holder, itself, member, is_held, perform, release, assign}

-- How many sessions with a handle are open after a trace. FwpmEngineClose0 closes one only if it succeeds.
unfoldable pub open_count : ℕ → List Call → ℕ
open_count h [] = 0
open_count h (made engine_open answer ∷ trace) =
    let before = open_count h trace in
    if answer.status == 0 && answer.number == h then before + 1 else before
open_count h (made (engine_close k) answer ∷ trace) =
    let before = open_count h trace in if k == h && answer.status == 0 then before - 1 else before
open_count h (made _ answer ∷ trace) = open_count h trace

-- How often the platform has refused to close a session with a handle.
unfoldable pub refusals : ℕ → List Call → ℕ
refusals h [] = 0
refusals h (made (engine_close k) answer ∷ trace) =
    let before = refusals h trace in
    if k == h && not (answer.status == 0) then before + 1 else before
refusals h (made _ answer ∷ trace) = refusals h trace

abbrev pub is_open : ℕ → List Call → Bool
is_open h trace = not (open_count h trace == 0)

-- What is documented of FwpmEngineOpen0: if it succeeds, it gives a handle that is not null and is not
-- that of a session that is open.
abbrev pub GivesNewHandles : Platform → Type 0
GivesNewHandles platform =
    (trace : List Call)
    → (platform trace engine_open).status ≡ 0
    → ((platform trace engine_open).number ≢ 0)
      × (open_count (platform trace engine_open).number trace ≡ 0)

-- Whether a request may be made after a trace: on a session that is open. AddContext may also come
-- with no session.
unfoldable pub is_sound : Request → List Call → Bool
is_sound engine_open trace = true
is_sound (engine_close h) trace = is_open h trace
is_sound (provider_add h _) trace = is_open h trace
is_sound (provider_context_add h _ _ _) trace = h == 0 || is_open h trace
is_sound (sublayer_add h _ _) trace = is_open h trace
is_sound (callout_add h _ _ _ _) trace = is_open h trace
is_sound (callout_delete_by_key h _) trace = is_open h trace
is_sound (filter_add h _ _ _ _ _) trace = is_open h trace

-- Every call was made on a session that was open then.
unfoldable pub orderly : List Call → Bool
orderly [] = true
orderly (made request answer ∷ trace) = is_sound request trace && orderly trace

-- One session is open for each handle that the engine and its callouts hold, and one for each time that the
-- platform refused to close it, there is none with a null handle, and every call was made on a session that
-- was open. While a handle is on its way to a pointer, it is counted as held.
pub record Tracks (pending : ℕ) (w : World) : Type 0 where
  pub sessions :
      (h : ℕ)
      → h ≢ 0
      → open_count h w.trace
        ≡ (if is_held h w.engine || h == pending then 1 else 0) + refusals h w.trace
  pub null_open : open_count 0 w.trace ≡ 0
  pub null_refused : refusals 0 w.trace ≡ 0
  pub in_order : orderly w.trace ≡ true

module _ (platform : Platform) where
  -- A handle moves to a pointer, and the old session is closed if that was its last pointer.
  assign-sessions :
      (holder : Holder) (k h : ℕ) (w : World)
      → Tracks k w
      → h ≢ 0
      → let w' = assign platform holder k w in
        open_count h w'.trace
        ≡ (if is_held h w'.engine || h == 0 then 1 else 0) + refusals h w'.trace
  unfolding assign release perform open_count refusals
  assign-sessions itself k h w t n = ground (arith, t.sessions h n)
  assign-sessions (member outbound_ipv4) k h w t n = ground (arith, t.sessions h n)
  assign-sessions (member inbound_icmp_error) k h w t n = ground (arith, t.sessions h n)
  assign-sessions (member outbound_icmp_error) k h w t n = ground (arith, t.sessions h n)
  assign-sessions (member outbound_tcp) k h w t n = ground (arith, t.sessions h n)

  assign-null :
      (holder : Holder) (k : ℕ) (w : World)
      → Tracks k w
      → let w' = assign platform holder k w in
        (open_count 0 w'.trace ≡ 0) × (refusals 0 w'.trace ≡ 0)
  unfolding assign release perform open_count refusals
  assign-null holder k w t = ground (arith, t.null_open, t.null_refused)

  assign-orderly :
      (holder : Holder) (k : ℕ) (w : World)
      → Tracks k w
      → orderly (assign platform holder k w).trace ≡ true
  unfolding assign release perform orderly is_sound
  assign-orderly itself k w t = ground (arith, t.sessions w.engine.engine_handle, t.in_order)
  assign-orderly (member outbound_ipv4) k w t =
      ground (arith, t.sessions w.engine.outbound_ipv4_callout.engine_handle, t.in_order)
  assign-orderly (member inbound_icmp_error) k w t =
      ground (arith, t.sessions w.engine.inbound_icmp_error_callout.engine_handle, t.in_order)
  assign-orderly (member outbound_icmp_error) k w t =
      ground (arith, t.sessions w.engine.outbound_icmp_error_callout.engine_handle, t.in_order)
  assign-orderly (member outbound_tcp) k w t =
      ground (arith, t.sessions w.engine.outbound_tcp_callout.engine_handle, t.in_order)

  pub assign-Tracks :
      (holder : Holder) (k : ℕ) (w : World) → Tracks k w → Tracks 0 (assign platform holder k w)
  assign-Tracks holder k w t = record {
    sessions = λ h n. assign-sessions holder k h w t n;
    null_open = (assign-null holder k w t).0;
    null_refused = (assign-null holder k w t).1;
    in_order = assign-orderly holder k w t;
  }
