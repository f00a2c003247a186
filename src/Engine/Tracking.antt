-- ===== src/Engine/Tracking.antt =====
-- The methods of src/WFPController/WindowsFilteringPlatform keep the sessions in step with the pointers.
pub mod Adding
use basic_windows_drivers.Engine.Sequence.{and_then-keeps}
use basic_windows_drivers.Base.{
  ℕ, ◌≡◌, ◌≢◌, refl, ◌∙◌, inl, inr, Bool, true, false, ◌||◌, List, ◌∷◌, if◌then◌else◌, ◌==◌,
  Bool-cases, arith,
}
use basic_windows_drivers.Engine.Platform.{
  Guid, Request, engine_open, engine_close, provider_add, provider_context_add, sublayer_add,
  callout_add, callout_delete_by_key, filter_add, Answer, Call, made, Platform, Condition,
}
use basic_windows_drivers.Engine.State.{
  Callout, Engine, World, Slot, outbound_ipv4, inbound_icmp_error, outbound_icmp_error,
  outbound_tcp, callout_of, set_callout,
}
use basic_windows_drivers.Engine.Handles.{itself, member, is_held, perform, release, assign}
use basic_windows_drivers.Engine.Operations.{
  Outcome, returned, thrown, Action, and_then, ask, remove, move, add, add_new, add_callouts,
  add_outbound_tcp_packet_callout, add_outbound_ipv4_packet_callout, add_inbound_icmp_error_callout,
  add_outbound_icmp_error_callout, open_filter_engine, register_provider, add_context, add_sublayer,
  add_filter, add_filters, close, destroy_callout, destroy,
}
use basic_windows_drivers.Engine.Sessions.{
  open_count, refusals, is_open, is_sound, orderly, GivesNewHandles, Tracks, assign-Tracks,
}

-- Neither the opening nor the closing of a session.
abbrev is_use : Request → Bool
is_use engine_open = false
is_use (engine_close h) = false
is_use _ = true

counts-use :
    (h : ℕ) (request : Request) (answer : Answer) (trace : List Call)
    → is_use request ≡ true
    → (open_count h (made request answer ∷ trace) ≡ open_count h trace)
      × (refusals h (made request answer ∷ trace) ≡ refusals h trace)
unfolding open_count refusals
counts-use h engine_open answer trace u = cc
counts-use h (engine_close k) answer trace u = cc
counts-use h (provider_add k key) answer trace u = (refl, refl)
counts-use h (provider_context_add k key provider n) answer trace u = (refl, refl)
counts-use h (sublayer_add k key provider) answer trace u = (refl, refl)
counts-use h (callout_add k key provider layer n) answer trace u = (refl, refl)
counts-use h (callout_delete_by_key k key) answer trace u = (refl, refl)
counts-use h (filter_add k layer sublayer callout context conditions) answer trace u = (refl, refl)

-- Changes to the engine that leave its handles alone.
same_held :
    {k : ℕ} (e : Engine) (w : World)
    → Tracks k w
    → ((h : ℕ) → is_held h e ≡ is_held h w.engine)
    → Tracks k (record w { engine = e })
same_held e w t same = record {
  sessions = λ h n. rw (same h) (t.sessions h n);
  null_open = t.null_open;
  null_refused = t.null_refused;
  in_order = t.in_order;
}

pending_held : (k : ℕ) (w : World) → Tracks 0 w → is_held k w.engine ≡ true → Tracks k w
pending_held k w t held = record {
  sessions = λ h n. ground (arith, t.sessions h n);
  null_open = t.null_open;
  null_refused = t.null_refused;
  in_order = t.in_order;
}

pub held-callout_of : (s : Slot) (e : Engine) → is_held (callout_of s e).engine_handle e ≡ true
held-callout_of outbound_ipv4 e = ground arith
held-callout_of inbound_icmp_error e = ground arith
held-callout_of outbound_icmp_error e = ground arith
held-callout_of outbound_tcp e = ground arith

held-set_callout :
    (s : Slot) (c : Callout) (e : Engine) (h : ℕ)
    → c.engine_handle ≡ (callout_of s e).engine_handle
    → is_held h (set_callout s c e) ≡ is_held h e
held-set_callout outbound_ipv4 c e h same = rw same
held-set_callout inbound_icmp_error c e h same = rw same
held-set_callout outbound_icmp_error c e h same = rw same
held-set_callout outbound_tcp c e h same = rw same

module _ (platform : Platform) where
  perform-Tracks :
      (request : Request) (w : World)
      → is_use request ≡ true
      → is_sound request w.trace ≡ true
      → Tracks 0 w
      → Tracks 0 (perform platform request w).0
  unfolding perform orderly
  perform-Tracks request w u s t = record {
    sessions = λ h n.
        let (opened, refused) = counts-use h request (platform w.trace request) w.trace u in
        rw (opened, refused) (t.sessions h n);
    null_open = (counts-use 0 request (platform w.trace request) w.trace u).0 ∙ t.null_open;
    null_refused = (counts-use 0 request (platform w.trace request) w.trace u).1 ∙ t.null_refused;
    in_order = rw s t.in_order;
  }

  -- A session that is held is open.
  open_held :
      (h : ℕ) (w : World)
      → Tracks 0 w
      → h ≢ 0
      → is_held h w.engine ≡ true
      → is_open h w.trace ≡ true
  open_held h w t n held = ground (arith, t.sessions h n)

  remove-Tracks : (s : Slot) (w : World) → Tracks 0 w → Tracks 0 (remove platform s w)
  unfolding remove is_sound perform
  remove-Tracks s w t =
      let c = callout_of s w.engine in
      elim (Bool-cases (c.callout_id == 0 || c.engine_handle == 0)) [
        | inl e ↦ rw e t
        | inr e ↦
            let n : c.engine_handle ≢ 0 = ground arith in
            let request = callout_delete_by_key c.engine_handle c.callout_key in
            let opened = open_held c.engine_handle w t n (held-callout_of s w.engine) in
            let told = perform-Tracks request w refl opened t in
            let w' = (perform platform request w).0 in
            rw e (
              assign-Tracks platform (member s) 0
                (record w' { engine = set_callout s (record c { callout_id = 0 }) w.engine })
                (same_held (set_callout s (record c { callout_id = 0 }) w.engine) w' told
                  (λ h. held-set_callout s (record c { callout_id = 0 }) w.engine h refl)))
      ]

  ask-Tracks :
      (request : Request) (keep : ℕ → Engine → Engine) (w : World)
      → is_use request ≡ true
      → is_sound request w.trace ≡ true
      → ((n h : ℕ) → is_held h (keep n w.engine) ≡ is_held h w.engine)
      → Tracks 0 w
      → Tracks 0 (ask platform request keep w).0
  unfolding ask perform
  ask-Tracks request keep w u s same t =
      let answer = platform w.trace request in
      let told = perform-Tracks request w u s t in
      elim (Bool-cases (answer.status == 0)) [
        | inl e ↦ rw e (
            same_held (keep answer.number w.engine) (perform platform request w).0 told
              (same answer.number))
        | inr e ↦ rw e told
      ]

  remove-engine_handle :
      (s : Slot) (w : World) → (remove platform s w).engine.engine_handle ≡ w.engine.engine_handle
  unfolding remove perform assign release
  remove-engine_handle outbound_ipv4 w = ground arith
  remove-engine_handle inbound_icmp_error w = ground arith
  remove-engine_handle outbound_icmp_error w = ground arith
  remove-engine_handle outbound_tcp w = ground arith

  assign-engine_handle :
      (s : Slot) (k : ℕ) (w : World)
      → (assign platform (member s) k w).engine.engine_handle ≡ w.engine.engine_handle
  unfolding assign release perform
  assign-engine_handle outbound_ipv4 k w = ground arith
  assign-engine_handle inbound_icmp_error k w = ground arith
  assign-engine_handle outbound_icmp_error k w = ground arith
  assign-engine_handle outbound_tcp k w = ground arith

  move-Tracks :
      (s : Slot) (other : Callout) (w : World)
      → other.engine_handle ≡ w.engine.engine_handle
      → Tracks 0 w
      → Tracks 0 (move platform s other w)
  unfolding move
  move-Tracks s other w own t =
      let w1 = remove platform s w in
      let c = record other { engine_handle = (callout_of s w1.engine).engine_handle } in
      let w2 = record w1 { engine = set_callout s c w1.engine } in
      let t2 =
        same_held (set_callout s c w1.engine) w1 (remove-Tracks s w t)
          (λ h. held-set_callout s c w1.engine h refl) in
      assign-Tracks platform (member s) other.engine_handle w2 (
        pending_held other.engine_handle w2 t2 (
          rw (held-set_callout s c w1.engine other.engine_handle refl)
            (ground (arith, remove-engine_handle s w))))

  add-Tracks : (s : Slot) (w : World) → Tracks 0 w → Tracks 0 (add platform s w).0
  unfolding add is_sound
  add-Tracks s w t =
      let c = callout_of s w.engine in
      elim (Bool-cases (c.engine_handle == 0)) [
        | inl e ↦ rw e t
        | inr e ↦
            let opened =
              open_held c.engine_handle w t (ground arith) (held-callout_of s w.engine) in
            rw e (
              ask-Tracks
                (callout_add c.engine_handle c.callout_key c.provider_key c.applicable_layer_key
                  c.flags)
                (λ n e. set_callout s (record (callout_of s e) { callout_id = n }) e) w refl opened
                (λ n h. held-set_callout s (record c { callout_id = n }) w.engine h refl) t)
      ]

  add_new-Tracks :
      (s : Slot) (key layer : Guid) (w : World)
      → Tracks 0 w
      → Tracks 0 (add_new platform s key layer w).0
  unfolding add_new
  add_new-Tracks s key layer w t = elim (Bool-cases (w.engine.engine_handle == 0)) [
    | inl e ↦ rw e t
    | inr e ↦ rw e (add-Tracks s (move platform s _ w) (move-Tracks s _ w refl t))
  ]

  pub add_callouts-Tracks : (w : World) → Tracks 0 w → Tracks 0 (add_callouts platform w).0
  unfolding add_callouts add_outbound_tcp_packet_callout add_outbound_ipv4_packet_callout
      add_inbound_icmp_error_callout add_outbound_icmp_error_callout
  add_callouts-Tracks w t = elim (Bool-cases (w.engine.engine_handle == 0)) [
    | inl e ↦ rw e t
    | inr e ↦ rw e (
        and_then-keeps (Tracks 0) _ _
          (and_then-keeps (Tracks 0) _ _
            (and_then-keeps (Tracks 0) _ _ (add_new-Tracks outbound_tcp _ _ w t)
              (λ w t. add_new-Tracks outbound_ipv4 _ _ w t))
            (λ w t. add_new-Tracks inbound_icmp_error _ _ w t))
          (λ w t. add_new-Tracks outbound_icmp_error _ _ w t))
  ]

  pub close-Tracks : (w : World) → Tracks 0 w → Tracks 0 (close platform w)
  unfolding close
  close-Tracks w t = elim (Bool-cases (w.engine.engine_handle == 0)) [
    | inl e ↦ rw e t
    | inr e ↦ rw e (
        assign-Tracks platform itself 0 _ (
          remove-Tracks outbound_tcp _ (
            remove-Tracks outbound_icmp_error _
              (remove-Tracks inbound_icmp_error _ (remove-Tracks outbound_ipv4 w t)))))
  ]

  destroy_callout-Tracks :
      (s : Slot) (w : World) → Tracks 0 w → Tracks 0 (destroy_callout platform s w)
  unfolding destroy_callout
  destroy_callout-Tracks s w t = assign-Tracks platform (member s) 0 _ (remove-Tracks s w t)

  pub destroy-Tracks : (w : World) → Tracks 0 w → Tracks 0 (destroy platform w)
  unfolding destroy
  destroy-Tracks w t = assign-Tracks platform itself 0 _ (
      destroy_callout-Tracks outbound_ipv4 _ (
        destroy_callout-Tracks inbound_icmp_error _ (
          destroy_callout-Tracks outbound_icmp_error _
            (destroy_callout-Tracks outbound_tcp _ (close-Tracks w t)))))

  -- A session that has just been opened, before a pointer holds it.
  opened_lem :
      (w : World)
      → GivesNewHandles platform
      → (platform w.trace engine_open).status ≡ 0
      → Tracks 0 w
      → Tracks (platform w.trace engine_open).number (perform platform engine_open w).0
  unfolding perform open_count refusals orderly is_sound
  opened_lem w new ok t =
      let (some_handle, unused) = new w.trace ok in
      record {
        sessions = λ h n. ground (arith, t.sessions h n);
        null_open = ground (arith, t.null_open);
        null_refused = t.null_refused;
        in_order = t.in_order;
      }

  failed_lem :
      (w : World)
      → (platform w.trace engine_open).status ≢ 0
      → Tracks 0 w
      → Tracks 0 (perform platform engine_open w).0
  unfolding perform open_count refusals orderly is_sound
  failed_lem w bad t = record {
    sessions = λ h n. ground (arith, t.sessions h n);
    null_open = ground (arith, t.null_open);
    null_refused = t.null_refused;
    in_order = t.in_order;
  }

  pub open-Tracks :
      (w : World)
      → GivesNewHandles platform
      → Tracks 0 w
      → Tracks 0 (open_filter_engine platform w).0
  unfolding open_filter_engine perform
  open-Tracks w new t =
      let answer = platform w.trace engine_open in
      elim (Bool-cases (answer.status == 0)) [
        | inl e ↦
            rw e (assign-Tracks platform itself answer.number _ (opened_lem w new (ground arith) t))
        | inr e ↦ rw e (failed_lem w (ground arith) t)
      ]
