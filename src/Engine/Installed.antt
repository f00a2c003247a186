-- ===== src/Engine/Installed.antt =====
-- The callouts that the platform holds, against the members of the engine of
-- src/WFPController/WindowsFilteringPlatform.
use basic_windows_drivers.Base.{
  ℕ, ◌≡◌, ◌≢◌, refl, ◌∙◌, ap, inl, inr, Bool, true, false, ◌&&◌, ◌||◌, List, [], ◌∷◌, if◌then◌else◌,
  ◌==◌, Bool-cases, arith,
}
use basic_windows_drivers.Engine.Platform.{
  Guid, null_guid, provider_key, provider_context_key, sublayer_key, outbound_tcp_callout_key,
  outbound_ipv4_callout_key, inbound_icmp_error_callout_key, outbound_icmp_error_callout_key,
  layer_outbound_transport_v4, layer_outbound_ippacket_v4, layer_inbound_icmp_error_v4,
  layer_outbound_icmp_error_v4, engine_close, callout_add, callout_delete_by_key, Call, made,
  Platform,
}
use basic_windows_drivers.Engine.State.{
  Callout, Engine, World, Slot, outbound_ipv4, inbound_icmp_error, outbound_icmp_error,
  outbound_tcp, callout_of, set_callout,
}
use basic_windows_drivers.Engine.Handles.{itself, member, perform, release, assign}
use basic_windows_drivers.Engine.Operations.{remove, move}
use basic_windows_drivers.Engine.Tracking.{held-callout_of}

abbrev pub guid_number : Guid → ℕ
guid_number null_guid = 0
guid_number provider_key = 1
guid_number provider_context_key = 2
guid_number sublayer_key = 3
guid_number outbound_tcp_callout_key = 4
guid_number outbound_ipv4_callout_key = 5
guid_number inbound_icmp_error_callout_key = 6
guid_number outbound_icmp_error_callout_key = 7
guid_number layer_outbound_transport_v4 = 8
guid_number layer_outbound_ippacket_v4 = 9
guid_number layer_inbound_icmp_error_v4 = 10
guid_number layer_outbound_icmp_error_v4 = 11

abbrev pub same_guid : Guid → Guid → Bool
same_guid a b = guid_number a == guid_number b

-- The session in which the platform holds a callout after a trace, or 0. The sessions are dynamic: what
-- was added in one goes when it is closed.
unfoldable pub present : Guid → List Call → ℕ
present key [] = 0
present key (made (callout_add h k provider layer flags) answer ∷ trace) =
    let before = present key trace in if answer.status == 0 && same_guid k key then h else before
present key (made (callout_delete_by_key h k) answer ∷ trace) =
    let before = present key trace in if answer.status == 0 && same_guid k key then 0 else before
present key (made (engine_close h) answer ∷ trace) =
    let before = present key trace in if before == h then 0 else before
present key (made _ answer ∷ trace) = present key trace

-- The key under which each member is added.
abbrev pub key_of : Slot → Guid
key_of outbound_ipv4 = outbound_ipv4_callout_key
key_of inbound_icmp_error = inbound_icmp_error_callout_key
key_of outbound_icmp_error = outbound_icmp_error_callout_key
key_of outbound_tcp = outbound_tcp_callout_key

abbrev pub same_slot : Slot → Slot → Bool
same_slot s r = same_guid (key_of s) (key_of r)

-- The platform deletes callouts that it is asked to, and gives those that it adds an identifier that is
-- not 0.
pub record IsObliging (platform : Platform) : Type 0 where
  pub deletes :
      (trace : List Call) (h : ℕ) (key : Guid)
      → (platform trace (callout_delete_by_key h key)).status ≡ 0
  pub identifies :
      (trace : List Call) (h : ℕ) (key provider layer : Guid) (flags : ℕ)
      → (platform trace (callout_add h key provider layer flags)).number ≢ 0

-- A member has an identifier exactly while the platform holds its callout, in the member's session.
abbrev pub At : Slot → World → Type 0
At r w =
    let c = callout_of r w.engine in
    (present (key_of r) w.trace ≡ (if c.callout_id == 0 then 0 else c.engine_handle))
    × (c.callout_id ≢ 0 → (c.engine_handle ≢ 0) × (c.callout_key ≡ key_of r))

pub callout_of-set_callout :
    (r s : Slot) (c : Callout) (e : Engine)
    → callout_of r (set_callout s c e) ≡ (if same_slot s r then c else callout_of r e)
callout_of-set_callout outbound_ipv4 outbound_ipv4 c e = refl
callout_of-set_callout outbound_ipv4 inbound_icmp_error c e = refl
callout_of-set_callout outbound_ipv4 outbound_icmp_error c e = refl
callout_of-set_callout outbound_ipv4 outbound_tcp c e = refl
callout_of-set_callout inbound_icmp_error outbound_ipv4 c e = refl
callout_of-set_callout inbound_icmp_error inbound_icmp_error c e = refl
callout_of-set_callout inbound_icmp_error outbound_icmp_error c e = refl
callout_of-set_callout inbound_icmp_error outbound_tcp c e = refl
callout_of-set_callout outbound_icmp_error outbound_ipv4 c e = refl
callout_of-set_callout outbound_icmp_error inbound_icmp_error c e = refl
callout_of-set_callout outbound_icmp_error outbound_icmp_error c e = refl
callout_of-set_callout outbound_icmp_error outbound_tcp c e = refl
callout_of-set_callout outbound_tcp outbound_ipv4 c e = refl
callout_of-set_callout outbound_tcp inbound_icmp_error c e = refl
callout_of-set_callout outbound_tcp outbound_icmp_error c e = refl
callout_of-set_callout outbound_tcp outbound_tcp c e = refl

callout_of_self : (s : Slot) (c : Callout) (e : Engine) → callout_of s (set_callout s c e) ≡ c
callout_of_self outbound_ipv4 c e = refl
callout_of_self inbound_icmp_error c e = refl
callout_of_self outbound_icmp_error c e = refl
callout_of_self outbound_tcp c e = refl

pub same_slot_eq : (s r : Slot) → same_slot s r ≡ true → s ≡ r
same_slot_eq outbound_ipv4 outbound_ipv4 h = refl
same_slot_eq inbound_icmp_error inbound_icmp_error h = refl
same_slot_eq outbound_icmp_error outbound_icmp_error h = refl
same_slot_eq outbound_tcp outbound_tcp h = refl
same_slot_eq outbound_ipv4 _ h = cc
same_slot_eq inbound_icmp_error _ h = cc
same_slot_eq outbound_icmp_error _ h = cc
same_slot_eq outbound_tcp _ h = cc

-- A member without an identifier becomes another without one.
set-At :
    (r s : Slot) (c : Callout) (w : World)
    → c.callout_id ≡ 0
    → (callout_of s w.engine).callout_id ≡ 0
    → At r w
    → At r (record w { engine = set_callout s c w.engine })
set-At r s c w new old a = elim (Bool-cases (same_slot s r)) [
  | inl same ↦
      let here : (callout_of r w.engine).callout_id ≡ 0 = rw (← same_slot_eq s r same) old in
      rw (callout_of-set_callout r s c w.engine, same) (ground arith)
  | inr other ↦ rw (callout_of-set_callout r s c w.engine, other) a
]

module _ (platform : Platform) (obliging : IsObliging platform) where
  pub release-At : (r : Slot) (h : ℕ) (w : World) → At r w → At r (release platform h w)
  unfolding release perform present
  release-At r h w a = ground (arith, held-callout_of r w.engine)

  pub assign-At :
      (r s : Slot) (k : ℕ) (w : World)
      → (callout_of s w.engine).callout_id ≡ 0
      → At r w
      → At r (assign platform (member s) k w)
  unfolding assign
  assign-At r s k w i a =
      let c = record (callout_of s w.engine) { engine_handle = k } in
      release-At r (callout_of s w.engine).engine_handle
        (record w { engine = set_callout s c w.engine }) (set-At r s c w i i a)

  pub assign_itself-At : (r : Slot) (k : ℕ) (w : World) → At r w → At r (assign platform itself k w)
  unfolding assign
  assign_itself-At r k w a =
      release-At r w.engine.engine_handle
        (record w { engine = record (w.engine) { engine_handle = k } })
        (elim r
            as (λ r.
              At r w → At r (record w { engine = record (w.engine) { engine_handle = k } })) [
                | outbound_ipv4 ↦ λ a. a
                | inbound_icmp_error ↦ λ a. a
                | outbound_icmp_error ↦ λ a. a
                | outbound_tcp ↦ λ a. a
              ]
          a)

  -- Deleting a member's callout, before the pointer is let go.
  deleted_lem :
      (r s : Slot) (w : World)
      → ((callout_of s w.engine).callout_id == 0 || (callout_of s w.engine).engine_handle == 0)
        ≡ false
      → At s w
      → At r w
      → let c = callout_of s w.engine in
        let w' = (perform platform (callout_delete_by_key c.engine_handle c.callout_key) w).0 in
        At r (record w' { engine = set_callout s (record c { callout_id = 0 }) w.engine })
  unfolding perform present
  deleted_lem r s w live own a =
      let c = callout_of s w.engine in
      let c' = record c { callout_id = 0 } in
      let (n, key) = own.1 (ground arith) in
      let ok = obliging.deletes w.trace c.engine_handle (key_of s) in
      elim (Bool-cases (same_slot s r)) [
        | inl same ↦
            rw (callout_of-set_callout r s c' w.engine, same)
              (rw key (ground arith, λ ne. absurd (ne refl)))
        | inr other ↦
            rw (callout_of-set_callout r s c' w.engine, other) (rw key (ground arith, a.1))
      ]

  pub remove-At : (r s : Slot) (w : World) → At s w → At r w → At r (remove platform s w)
  unfolding remove perform
  remove-At r s w own a =
      let c = callout_of s w.engine in
      let c' = record c { callout_id = 0 } in
      let w' = (perform platform (callout_delete_by_key c.engine_handle c.callout_key) w).0 in
      elim (Bool-cases (c.callout_id == 0 || c.engine_handle == 0)) [
        | inl e ↦ rw e a
        | inr e ↦ rw e (
            assign-At r s 0 (record w' { engine = set_callout s c' w.engine })
              (ap (λ (d : Callout). d.callout_id) (callout_of_self s c' w.engine))
              (deleted_lem r s w e own a))
      ]

  -- After Remove a member has no identifier.
  pub remove-callout_id :
      (s : Slot) (w : World) → At s w → (callout_of s (remove platform s w).engine).callout_id ≡ 0
  unfolding remove perform assign release
  remove-callout_id outbound_ipv4 w own = ground arith
  remove-callout_id inbound_icmp_error w own = ground arith
  remove-callout_id outbound_icmp_error w own = ground arith
  remove-callout_id outbound_tcp w own = ground arith

  pub move-At :
      (r s : Slot) (other : Callout) (w : World)
      → other.callout_id ≡ 0
      → At s w
      → At r w
      → At r (move platform s other w)
  unfolding move
  move-At r s other w n own a =
      let w1 = remove platform s w in
      let c = record other { engine_handle = (callout_of s w1.engine).engine_handle } in
      let w2 = record w1 { engine = set_callout s c w1.engine } in
      assign-At r s other.engine_handle w2
        (ap (λ (d : Callout). d.callout_id) (callout_of_self s c w1.engine) ∙ n)
        (set-At r s c w1 n (remove-callout_id s w own) (remove-At r s w own a))

  -- What a callout is after a move onto it.
  pub callout_of-move :
      (s : Slot) (other : Callout) (w : World)
      → callout_of s (move platform s other w).engine ≡ other
  unfolding move assign release perform
  callout_of-move outbound_ipv4 other w = ground arith
  callout_of-move inbound_icmp_error other w = ground arith
  callout_of-move outbound_icmp_error other w = ground arith
  callout_of-move outbound_tcp other w = ground arith
