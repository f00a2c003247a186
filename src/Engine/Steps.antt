-- ===== src/Engine/Steps.antt =====
-- The calls of the command "all" of src/WFPController/main.cpp, one by one, when the platform does what it
-- is asked.
use basic_windows_drivers.Base.{
  ℕ, ◌≡◌, ◌≢◌, refl, ◌∙◌, ap, inl, inr, Bool, true, false, ◌||◌, List, ◌==◌, Bool-cases, arith,
}
use basic_windows_drivers.Engine.Platform.{
  Guid, provider_key, Request, engine_open, callout_add, Call, Platform, Condition,
}
use basic_windows_drivers.Engine.State.{
  Callout, Engine, World, Slot, outbound_ipv4, inbound_icmp_error, outbound_icmp_error,
  outbound_tcp, callout_of, set_callout,
}
use basic_windows_drivers.Engine.Handles.{perform, release, assign}
use basic_windows_drivers.Engine.Operations.{
  Outcome, returned, thrown, Action, and_then, ask, remove, move, add, add_new,
  uses_provider_context, add_callouts, add_outbound_tcp_packet_callout,
  add_outbound_ipv4_packet_callout, add_inbound_icmp_error_callout, add_outbound_icmp_error_callout,
  open_filter_engine, register_provider, add_context, add_sublayer, add_filter, add_filters,
}
use basic_windows_drivers.Engine.Installed.{same_slot, IsObliging, callout_of-set_callout}
use basic_windows_drivers.Engine.Destruction.{engine_handle-set_callout}
use basic_windows_drivers.Engine.Refinement.{same_callouts}
use basic_windows_drivers.Engine.Controller.{set_up}

-- The platform refuses nothing.
abbrev pub IsWilling : Platform → Type 0
IsWilling platform = (trace : List Call) (request : Request) → (platform trace request).status ≡ 0

-- The call returned, the engine holds the session, and the given members are added in it.
abbrev pub Good : ℕ → (Slot → Bool) → World × Outcome → Type 0
Good h added (w, outcome) =
    (outcome ≡ returned)
    × (w.engine.engine_handle ≡ h)
    × ((r : Slot)
        → added r ≡ true
        → let c = callout_of r w.engine in (c.callout_id ≢ 0) × (c.engine_handle ≡ h))

and_then-Good :
    (h : ℕ) (before after : Slot → Bool) (r : World × Outcome) (next : Action)
    → Good h before r
    → ((w : World) → Good h before (w, returned) → Good h after (next w))
    → Good h after (and_then r next)
unfolding and_then
and_then-Good h before after (w, returned) next (out, own, good) then_good =
    then_good w (refl, own, good)
and_then-Good h before after (w, thrown e) next (out, own, good) then_good = cc

callout_handle :
    (s : Slot) (c : Callout) (e : Engine)
    → (callout_of s (set_callout s c e)).engine_handle ≡ c.engine_handle
callout_handle outbound_ipv4 c e = refl
callout_handle inbound_icmp_error c e = refl
callout_handle outbound_icmp_error c e = refl
callout_handle outbound_tcp c e = refl

module _ (platform : Platform) where
  -- A move onto a member changes nothing else of the engine.
  engine-move :
      (s : Slot) (other : Callout) (w : World)
      → (move platform s other w).engine ≡ set_callout s other w.engine
  unfolding move remove assign release perform
  engine-move outbound_ipv4 other w = ground arith
  engine-move inbound_icmp_error other w = ground arith
  engine-move outbound_icmp_error other w = ground arith
  engine-move outbound_tcp other w = ground arith

  ask-Good :
      (h : ℕ) (added : Slot → Bool) (request : Request) (keep : ℕ → Engine → Engine) (w : World)
      → IsWilling platform
      → ((n : ℕ) (e : Engine) → (keep n e).engine_handle ≡ e.engine_handle)
      → ((n : ℕ) (e : Engine) (r : Slot) → callout_of r (keep n e) ≡ callout_of r e)
      → Good h added (w, returned)
      → Good h added (ask platform request keep w)
  unfolding ask perform
  ask-Good h added request keep w willing same_handle same_callout (out, own, good) =
      let n = (platform w.trace request).number in
      rw (willing w.trace request)
        (refl, same_handle n w.engine ∙ own, λ r a. rw (same_callout n w.engine r) (good r a))

  add-Good :
      (h : ℕ) (added : Slot → Bool) (s : Slot) (w : World)
      → IsWilling platform
      → IsObliging platform
      → h ≢ 0
      → w.engine.engine_handle ≡ h
      → (callout_of s w.engine).engine_handle ≡ h
      → ((r : Slot)
          → added r ≡ true
          → same_slot s r ≡ false
          → let c = callout_of r w.engine in (c.callout_id ≢ 0) × (c.engine_handle ≡ h))
      → Good h (λ r. same_slot s r || added r) (add platform s w)
  unfolding add ask perform
  add-Good h added s w willing obliging n own mine others =
      let c = callout_of s w.engine in
      let request =
        callout_add c.engine_handle c.callout_key c.provider_key c.applicable_layer_key c.flags in
      let number = (platform w.trace request).number in
      let c' = record c { callout_id = number } in
      let live : (c.engine_handle == 0) ≡ false = ground arith in
      rw (live, willing w.trace request)
        (
          refl,
          engine_handle-set_callout s c' w.engine ∙ own,
          λ r a. elim (Bool-cases (same_slot s r)) [
            | inl same ↦
                rw (callout_of-set_callout r s c' w.engine, same)
                  (
                    obliging.identifies w.trace c.engine_handle c.callout_key c.provider_key
                        c.applicable_layer_key c.flags,
                    mine,
                  )
            | inr other ↦
                rw (callout_of-set_callout r s c' w.engine, other) (others r (ground arith) other)
          ],
        )

  add_new-Good :
      (h : ℕ) (added : Slot → Bool) (s : Slot) (key layer : Guid) (w : World)
      → IsWilling platform
      → IsObliging platform
      → h ≢ 0
      → Good h added (w, returned)
      → Good h (λ r. same_slot s r || added r) (add_new platform s key layer w)
  unfolding add_new
  add_new-Good h added s key layer w willing obliging n (out, own, good) =
      let other : Callout = record {
        engine_handle = w.engine.engine_handle;
        callout_key = key;
        provider_key = provider_key;
        applicable_layer_key = layer;
        callout_id = 0;
        flags = uses_provider_context;
      } in
      let live : (w.engine.engine_handle == 0) ≡ false = ground arith in
      let w' = move platform s other w in
      let moved = engine-move s other w in
      rw live (
        add-Good h added s w' willing obliging n
          (ap (λ (e : Engine). e.engine_handle) moved
            ∙ engine_handle-set_callout s other w.engine
            ∙ own)
          (ap (λ (e : Engine). (callout_of s e).engine_handle) moved
            ∙ callout_handle s other w.engine
            ∙ own)
          (λ r a different.
            rw (moved, callout_of-set_callout r s other w.engine, different) (good r a)))

  pub open-Good :
      (w : World)
      → IsWilling platform
      → Good (platform w.trace engine_open).number (λ r. false) (open_filter_engine platform w)
  unfolding open_filter_engine perform assign release
  open-Good w willing = rw (willing w.trace engine_open) (refl, ground arith, λ r a. cc)

  module _ (h : ℕ) (n : h ≢ 0) (willing : IsWilling platform) where
    live : (w : World) → w.engine.engine_handle ≡ h → (w.engine.engine_handle == 0) ≡ false
    live w own = ground arith

    register_provider-Good :
        (added : Slot → Bool) (w : World)
        → Good h added (w, returned)
        → Good h added (register_provider platform w)
    unfolding register_provider
    register_provider-Good added w good = rw (live w (good.1)) (
        ask-Good h added _ _ w willing (λ n e. refl)
          (λ n e r. same_callouts r e _ refl refl refl refl) good)

    add_context-Good :
        (process_id : ℕ) (added : Slot → Bool) (w : World)
        → Good h added (w, returned)
        → Good h added (add_context platform process_id w)
    unfolding add_context
    add_context-Good process_id added w good =
        ask-Good h added _ _ w willing (λ n e. refl)
          (λ n e r. same_callouts r e _ refl refl refl refl) good

    add_sublayer-Good :
        (added : Slot → Bool) (w : World)
        → Good h added (w, returned)
        → Good h added (add_sublayer platform w)
    unfolding add_sublayer
    add_sublayer-Good added w good = rw (live w (good.1)) (
        ask-Good h added _ _ w willing (λ n e. refl)
          (λ n e r. same_callouts r e _ refl refl refl refl) good)

    add_filter-Good :
        (layer sublayer callout : Guid) (conditions : List Condition) (keep : ℕ → Engine → Engine)
        (added : Slot → Bool) (w : World)
        → ((n : ℕ) (e : Engine) → (keep n e).engine_handle ≡ e.engine_handle)
        → ((n : ℕ) (e : Engine) (r : Slot) → callout_of r (keep n e) ≡ callout_of r e)
        → Good h added (w, returned)
        → Good h added (add_filter platform layer sublayer callout conditions keep w)
    unfolding add_filter
    add_filter-Good layer sublayer callout conditions keep added w same_handle same_callout good =
        rw (live w (good.1)) (ask-Good h added _ keep w willing same_handle same_callout good)

    add_filters-Good :
        (added : Slot → Bool) (w : World)
        → Good h added (w, returned)
        → Good h added (add_filters platform w)
    unfolding add_filters
    add_filters-Good added w good = rw (live w (good.1)) (
        and_then-Good h added added _ _
          (and_then-Good h added added _ _
            (and_then-Good h added added _ _
              (add_filter-Good _ _ _ _ _ added w (λ n e. refl)
                (λ n e r. same_callouts r e _ refl refl refl refl) good)
              (λ w good.
                add_filter-Good _ _ _ _ _ added w (λ n e. refl)
                  (λ n e r. same_callouts r e _ refl refl refl refl) good))
            (λ w good.
              add_filter-Good _ _ _ _ _ added w (λ n e. refl)
                (λ n e r. same_callouts r e _ refl refl refl refl) good))
          (λ w good.
            add_filter-Good _ _ _ _ _ added w (λ n e. refl)
              (λ n e r. same_callouts r e _ refl refl refl refl) good))

    -- All four members.
    abbrev pub every : Slot → Bool
    every r =
        same_slot outbound_icmp_error r
        || (same_slot inbound_icmp_error r
            || (same_slot outbound_ipv4 r || (same_slot outbound_tcp r || false)))

    add_callouts-Good :
        (w : World)
        → IsObliging platform
        → Good h (λ r. false) (w, returned)
        → Good h every (add_callouts platform w)
    unfolding add_callouts add_outbound_tcp_packet_callout add_outbound_ipv4_packet_callout
        add_inbound_icmp_error_callout add_outbound_icmp_error_callout
    add_callouts-Good w obliging good = rw (live w (good.1)) (
        and_then-Good h _ _ _ _
          (and_then-Good h _ _ _ _
            (and_then-Good h _ _ _ _ (add_new-Good h _ outbound_tcp _ _ w willing obliging n good)
              (λ w good. add_new-Good h _ outbound_ipv4 _ _ w willing obliging n good))
            (λ w good. add_new-Good h _ inbound_icmp_error _ _ w willing obliging n good))
          (λ w good. add_new-Good h _ outbound_icmp_error _ _ w willing obliging n good))

    pub every_slot : (r : Slot) → every r ≡ true
    every_slot outbound_ipv4 = refl
    every_slot inbound_icmp_error = refl
    every_slot outbound_icmp_error = refl
    every_slot outbound_tcp = refl

    pub set_up-Good :
        (process_id : ℕ) (w : World)
        → IsObliging platform
        → Good h (λ r. false) (open_filter_engine platform w)
        → Good h every (set_up platform process_id w)
    unfolding set_up
    set_up-Good process_id w obliging opened =
        and_then-Good h _ _ _ _
          (and_then-Good h _ _ _ _
            (and_then-Good h _ _ _ _
              (and_then-Good h _ _ _ _
                (and_then-Good h _ _ _ _ opened (λ w good. register_provider-Good _ w good))
                (λ w good. add_context-Good process_id _ w good))
              (λ w good. add_sublayer-Good _ w good))
            (λ w good. add_callouts-Good w obliging good))
          (λ w good. add_filters-Good every w good)
