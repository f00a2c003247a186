-- ===== src/Engine/Refinement.antt =====
-- The methods of src/WFPController/WindowsFilteringPlatform keep the members in step with the callouts that
-- the platform holds.
use basic_windows_drivers.Engine.Sequence.{and_then-keeps}
use basic_windows_drivers.Base.{
  ℕ, ◌≡◌, ◌≢◌, refl, ◌∙◌, ap, inl, inr, Bool, true, false, List, ◌∷◌, ◌==◌, Bool-cases, arith,
}
use basic_windows_drivers.Engine.Platform.{
  Guid, Request, engine_open, engine_close, provider_add, provider_context_add, sublayer_add,
  callout_add, callout_delete_by_key, filter_add, Answer, Call, made, Platform, Condition,
  provider_key,
}
use basic_windows_drivers.Engine.State.{
  Callout, Engine, World, Slot, outbound_ipv4, inbound_icmp_error, outbound_icmp_error,
  outbound_tcp, callout_of, set_callout,
}
use basic_windows_drivers.Engine.Handles.{perform}
use basic_windows_drivers.Engine.Operations.{
  uses_provider_context, ask, remove, move, add, add_new, add_callouts,
  add_outbound_tcp_packet_callout, add_outbound_ipv4_packet_callout, add_inbound_icmp_error_callout,
  add_outbound_icmp_error_callout, open_filter_engine, register_provider, add_context, add_sublayer,
  add_filter, add_filters, close, destroy_callout, destroy,
}
use basic_windows_drivers.Engine.Installed.{
  present, key_of, same_guid, same_slot, IsObliging, At, callout_of-set_callout, same_slot_eq,
  assign-At, assign_itself-At, remove-At, remove-callout_id, move-At, callout_of-move,
}

-- Every member is in step.
abbrev pub AllAt : World → Type 0
AllAt w = (r : Slot) → At r w

-- A request that adds and removes no callouts.
abbrev is_other : Request → Bool
is_other (engine_close h) = false
is_other (callout_add h key provider layer flags) = false
is_other (callout_delete_by_key h key) = false
is_other _ = true

present-other :
    (key : Guid) (request : Request) (answer : Answer) (trace : List Call)
    → is_other request ≡ true
    → present key (made request answer ∷ trace) ≡ present key trace
unfolding present
present-other key engine_open answer trace u = refl
present-other key (engine_close k) answer trace u = cc
present-other key (provider_add k p) answer trace u = refl
present-other key (provider_context_add k p provider n) answer trace u = refl
present-other key (sublayer_add k p provider) answer trace u = refl
present-other key (callout_add k p provider layer n) answer trace u = cc
present-other key (callout_delete_by_key k p) answer trace u = cc
present-other key (filter_add k layer sublayer callout context conditions) answer trace u = refl

pub same_callouts :
    (r : Slot) (e e' : Engine)
    → e'.outbound_ipv4_callout ≡ e.outbound_ipv4_callout
    → e'.inbound_icmp_error_callout ≡ e.inbound_icmp_error_callout
    → e'.outbound_icmp_error_callout ≡ e.outbound_icmp_error_callout
    → e'.outbound_tcp_callout ≡ e.outbound_tcp_callout
    → callout_of r e' ≡ callout_of r e
same_callouts outbound_ipv4 e e' a b c d = a
same_callouts inbound_icmp_error e e' a b c d = b
same_callouts outbound_icmp_error e e' a b c d = c
same_callouts outbound_tcp e e' a b c d = d

module _ (platform : Platform) (obliging : IsObliging platform) where
  ask-At :
      (request : Request) (keep : ℕ → Engine → Engine) (w : World)
      → is_other request ≡ true
      → ((n : ℕ) (r : Slot) → callout_of r (keep n w.engine) ≡ callout_of r w.engine)
      → AllAt w
      → AllAt (ask platform request keep w).0
  unfolding ask perform
  ask-At request keep w u same a r =
      let answer = platform w.trace request in
      let p = present-other (key_of r) request answer w.trace u in
      elim (Bool-cases (answer.status == 0)) [
        | inl e ↦ rw (e, same answer.number r, p) (a r)
        | inr e ↦ rw (e, p) (a r)
      ]

  -- The platform takes a callout in, or refuses it.
  added_lem :
      (s r : Slot) (w : World)
      → (callout_of s w.engine).callout_id ≡ 0
      → (callout_of s w.engine).callout_key ≡ key_of s
      → (callout_of s w.engine).engine_handle ≢ 0
      → At r w
      → let c = callout_of s w.engine in
        At r
          (ask platform
            (callout_add c.engine_handle c.callout_key c.provider_key c.applicable_layer_key
              c.flags)
            (λ n e. set_callout s (record (callout_of s e) { callout_id = n }) e)
            w).0
  unfolding ask perform present
  added_lem s r w i key n a =
      let c = callout_of s w.engine in
      let answer =
        platform w.trace (
          callout_add c.engine_handle c.callout_key c.provider_key c.applicable_layer_key
            c.flags) in
      let given =
        obliging.identifies w.trace c.engine_handle c.callout_key c.provider_key
          c.applicable_layer_key c.flags in
      let c' = record c { callout_id = answer.number } in
      elim (Bool-cases (answer.status == 0)) [
        | inl e ↦ elim (Bool-cases (same_slot s r)) [
          | inl same ↦
              let k : same_guid c.callout_key (key_of r) ≡ true = rw key same in
              rw (e, callout_of-set_callout r s c' w.engine, same)
                (ground arith, λ ne. (n, key ∙ ap key_of (same_slot_eq s r same)))
          | inr other ↦
              let k : same_guid c.callout_key (key_of r) ≡ false = rw key other in
              rw (e, callout_of-set_callout r s c' w.engine, other) (ground arith, a.1)
        ]
        | inr e ↦ rw e (ground arith, a.1)
      ]

  add-At :
      (s r : Slot) (w : World)
      → (callout_of s w.engine).callout_id ≡ 0
      → (callout_of s w.engine).callout_key ≡ key_of s
      → At r w
      → At r (add platform s w).0
  unfolding add
  add-At s r w i key a = elim (Bool-cases ((callout_of s w.engine).engine_handle == 0)) [
    | inl e ↦ rw e a
    | inr e ↦ rw e (added_lem s r w i key (ground arith) a)
  ]

  add_new-At :
      (s : Slot) (layer : Guid) (w : World)
      → AllAt w
      → AllAt (add_new platform s (key_of s) layer w).0
  unfolding add_new
  add_new-At s layer w a r =
      let other : Callout = record {
        engine_handle = w.engine.engine_handle;
        callout_key = key_of s;
        provider_key = provider_key;
        applicable_layer_key = layer;
        callout_id = 0;
        flags = uses_provider_context;
      } in
      let now = callout_of-move platform obliging s other w in
      elim (Bool-cases (w.engine.engine_handle == 0)) [
        | inl e ↦ rw e (a r)
        | inr e ↦ rw e (
            add-At s r (move platform s other w) (ap (λ (d : Callout). d.callout_id) now)
              (ap (λ (d : Callout). d.callout_key) now)
              (move-At platform obliging r s other w refl (a s) (a r)))
      ]

  pub add_callouts-At : (w : World) → AllAt w → AllAt (add_callouts platform w).0
  unfolding add_callouts add_outbound_tcp_packet_callout add_outbound_ipv4_packet_callout
      add_inbound_icmp_error_callout add_outbound_icmp_error_callout
  add_callouts-At w a = elim (Bool-cases (w.engine.engine_handle == 0)) [
    | inl e ↦ rw e a
    | inr e ↦ rw e (
        and_then-keeps AllAt _ _
          (and_then-keeps AllAt _ _
            (and_then-keeps AllAt _ _ (add_new-At outbound_tcp _ w a)
              (λ w a. add_new-At outbound_ipv4 _ w a))
            (λ w a. add_new-At inbound_icmp_error _ w a))
          (λ w a. add_new-At outbound_icmp_error _ w a))
  ]

  pub register_provider-At : (w : World) → AllAt w → AllAt (register_provider platform w).0
  unfolding register_provider
  register_provider-At w a = elim (Bool-cases (w.engine.engine_handle == 0)) [
    | inl e ↦ rw e a
    | inr e ↦ rw e (ask-At _ _ w refl (λ n r. same_callouts r _ _ refl refl refl refl) a)
  ]

  pub add_sublayer-At : (w : World) → AllAt w → AllAt (add_sublayer platform w).0
  unfolding add_sublayer
  add_sublayer-At w a = elim (Bool-cases (w.engine.engine_handle == 0)) [
    | inl e ↦ rw e a
    | inr e ↦ rw e (ask-At _ _ w refl (λ n r. same_callouts r _ _ refl refl refl refl) a)
  ]

  pub add_context-At :
      (process_id : ℕ) (w : World) → AllAt w → AllAt (add_context platform process_id w).0
  unfolding add_context
  add_context-At process_id w a =
      ask-At _ _ w refl (λ n r. same_callouts r _ _ refl refl refl refl) a

  add_filter-At :
      (layer sublayer callout : Guid) (conditions : List Condition) (keep : ℕ → Engine → Engine)
      (w : World)
      → ((n : ℕ) (r : Slot) (e : Engine) → callout_of r (keep n e) ≡ callout_of r e)
      → AllAt w
      → AllAt (add_filter platform layer sublayer callout conditions keep w).0
  unfolding add_filter
  add_filter-At layer sublayer callout conditions keep w same a =
      elim (Bool-cases (w.engine.engine_handle == 0)) [
        | inl e ↦ rw e a
        | inr e ↦ rw e (ask-At _ _ w refl (λ n r. same n r w.engine) a)
      ]

  pub add_filters-At : (w : World) → AllAt w → AllAt (add_filters platform w).0
  unfolding add_filters
  add_filters-At w a = elim (Bool-cases (w.engine.engine_handle == 0)) [
    | inl e ↦ rw e a
    | inr e ↦ rw e (
        and_then-keeps AllAt _ _
          (and_then-keeps AllAt _ _
            (and_then-keeps AllAt _ _
              (add_filter-At _ _ _ _ _ w (λ n r e. same_callouts r _ _ refl refl refl refl) a)
              (λ w a.
                add_filter-At _ _ _ _ _ w (λ n r e. same_callouts r _ _ refl refl refl refl) a))
            (λ w a. add_filter-At _ _ _ _ _ w (λ n r e. same_callouts r _ _ refl refl refl refl) a))
          (λ w a. add_filter-At _ _ _ _ _ w (λ n r e. same_callouts r _ _ refl refl refl refl) a))
  ]

  remove-AllAt : (s : Slot) (w : World) → AllAt w → AllAt (remove platform s w)
  remove-AllAt s w a r = remove-At platform obliging r s w (a s) (a r)

  pub close-At : (w : World) → AllAt w → AllAt (close platform w)
  unfolding close
  close-At w a r = elim (Bool-cases (w.engine.engine_handle == 0)) [
    | inl e ↦ rw e (a r)
    | inr e ↦ rw e (
        assign_itself-At platform obliging r 0 _ (
          remove-AllAt outbound_tcp _
            (remove-AllAt outbound_icmp_error _
              (remove-AllAt inbound_icmp_error _ (remove-AllAt outbound_ipv4 w a)))
            r))
  ]

  destroy_callout-At : (s : Slot) (w : World) → AllAt w → AllAt (destroy_callout platform s w)
  unfolding destroy_callout
  destroy_callout-At s w a r =
      assign-At platform obliging r s 0 (remove platform s w)
        (remove-callout_id platform obliging s w (a s)) (remove-AllAt s w a r)

  pub destroy-At : (w : World) → AllAt w → AllAt (destroy platform w)
  unfolding destroy
  destroy-At w a r = assign_itself-At platform obliging r 0 _ (
      destroy_callout-At outbound_ipv4 _
        (destroy_callout-At inbound_icmp_error _ (
          destroy_callout-At outbound_icmp_error _
            (destroy_callout-At outbound_tcp _ (close-At w a))))
        r)

  pub open-At : (w : World) → AllAt w → AllAt (open_filter_engine platform w).0
  unfolding open_filter_engine perform
  open-At w a r =
      let answer = platform w.trace engine_open in
      let p = present-other (key_of r) engine_open answer w.trace refl in
      let opened = (perform platform engine_open w).0 in
      elim (Bool-cases (answer.status == 0)) [
        | inl e ↦ rw e (assign_itself-At platform obliging r answer.number opened (rw p (a r)))
        | inr e ↦ rw (e, p) (a r)
      ]
