-- ===== src/Engine/Destruction.antt =====
-- The destructor of the engine of src/WFPController/WindowsFilteringPlatform lets every pointer go.
use basic_windows_drivers.Base.{
  ℕ, ◌≡◌, ◌≢◌, refl, ◌∙◌, ap, inl, inr, false, ◌||◌, ◌==◌, Bool-cases, arith,
}
use basic_windows_drivers.Engine.Platform.{callout_delete_by_key, Platform}
use basic_windows_drivers.Engine.State.{
  Callout, Engine, World, Slot, outbound_ipv4, inbound_icmp_error, outbound_icmp_error,
  outbound_tcp, callout_of, set_callout,
}
use basic_windows_drivers.Engine.Handles.{
  Holder, itself, member, handle_of, set_handle, is_held, perform, release, assign,
}
use basic_windows_drivers.Engine.Operations.{remove, close, destroy_callout, destroy}
use basic_windows_drivers.Engine.Installed.{callout_of-set_callout}
use basic_windows_drivers.Engine.Refinement.{same_callouts}

pub engine_handle-set_callout :
    (s : Slot) (c : Callout) (e : Engine) → (set_callout s c e).engine_handle ≡ e.engine_handle
engine_handle-set_callout outbound_ipv4 c e = refl
engine_handle-set_callout inbound_icmp_error c e = refl
engine_handle-set_callout outbound_icmp_error c e = refl
engine_handle-set_callout outbound_tcp c e = refl

-- A pointer that is null stays so when a callout gets a null pointer.
null-set_callout :
    (x : Holder) (s : Slot) (c : Callout) (e : Engine)
    → c.engine_handle ≡ 0
    → handle_of x e ≡ 0
    → handle_of x (set_callout s c e) ≡ 0
null-set_callout itself s c e n z = engine_handle-set_callout s c e ∙ z
null-set_callout (member r) s c e n z =
    rw (handle_of, callout_of-set_callout r s c e) (ground arith)

-- A callout that keeps its pointer leaves all pointers alone.
handle_of-set_callout :
    (x : Holder) (s : Slot) (c : Callout) (e : Engine)
    → c.engine_handle ≡ (callout_of s e).engine_handle
    → handle_of x e ≡ 0
    → handle_of x (set_callout s c e) ≡ 0
handle_of-set_callout itself s c e same z = engine_handle-set_callout s c e ∙ z
handle_of-set_callout (member outbound_ipv4) outbound_ipv4 c e same z = same ∙ z
handle_of-set_callout (member inbound_icmp_error) inbound_icmp_error c e same z = same ∙ z
handle_of-set_callout (member outbound_icmp_error) outbound_icmp_error c e same z = same ∙ z
handle_of-set_callout (member outbound_tcp) outbound_tcp c e same z = same ∙ z
handle_of-set_callout (member outbound_ipv4) _ c e same z = z
handle_of-set_callout (member inbound_icmp_error) _ c e same z = z
handle_of-set_callout (member outbound_icmp_error) _ c e same z = z
handle_of-set_callout (member outbound_tcp) _ c e same z = z

module _ (platform : Platform) where
  engine-assign :
      (x : Holder) (k : ℕ) (w : World) → (assign platform x k w).engine ≡ set_handle x k w.engine
  unfolding assign release perform
  engine-assign x k w = ground arith

  null-assign :
      (x y : Holder) (w : World)
      → handle_of x w.engine ≡ 0
      → handle_of x (assign platform y 0 w).engine ≡ 0
  null-assign x itself w z = rw (engine-assign itself 0 w) (cleared x z)
    where
      cleared :
          (x : Holder) → handle_of x w.engine ≡ 0 → handle_of x (set_handle itself 0 w.engine) ≡ 0
      cleared itself z = refl
      cleared (member r) z =
          ap (λ (c : Callout). c.engine_handle)
            (same_callouts r w.engine (set_handle itself 0 w.engine) refl refl refl refl)
          ∙ z
  null-assign x (member s) w z =
      rw (engine-assign (member s) 0 w) (
        null-set_callout x s (record (callout_of s w.engine) { engine_handle = 0 }) w.engine refl z)

  null-remove :
      (x : Holder) (s : Slot) (w : World)
      → handle_of x w.engine ≡ 0
      → handle_of x (remove platform s w).engine ≡ 0
  unfolding remove perform
  null-remove x s w z =
      let c = callout_of s w.engine in
      let c' = record c { callout_id = 0 } in
      elim (Bool-cases (c.callout_id == 0 || c.engine_handle == 0)) [
        | inl e ↦ rw e z
        | inr e ↦ rw e (
            null-assign x (member s)
              (record (perform platform (callout_delete_by_key c.engine_handle c.callout_key) w).0 {
                engine = set_callout s c' w.engine;
              })
              (handle_of-set_callout x s c' w.engine refl z))
      ]

  assigned : (x : Holder) (w : World) → handle_of x (assign platform x 0 w).engine ≡ 0
  assigned itself w = rw (engine-assign itself 0 w)
  assigned (member outbound_ipv4) w = rw (engine-assign (member outbound_ipv4) 0 w)
  assigned (member inbound_icmp_error) w = rw (engine-assign (member inbound_icmp_error) 0 w)
  assigned (member outbound_icmp_error) w = rw (engine-assign (member outbound_icmp_error) 0 w)
  assigned (member outbound_tcp) w = rw (engine-assign (member outbound_tcp) 0 w)

  null-destroy_callout :
      (x : Holder) (s : Slot) (w : World)
      → handle_of x w.engine ≡ 0
      → handle_of x (destroy_callout platform s w).engine ≡ 0
  unfolding destroy_callout
  null-destroy_callout x s w z = null-assign x (member s) _ (null-remove x s w z)

  destroyed_callout :
      (s : Slot) (w : World) → handle_of (member s) (destroy_callout platform s w).engine ≡ 0
  unfolding destroy_callout
  destroyed_callout s w = assigned (member s) (remove platform s w)

  -- After the destructor nobody holds a session.
  pub destroy-is_held : (h : ℕ) (w : World) → h ≢ 0 → is_held h (destroy platform w).engine ≡ false
  unfolding destroy
  destroy-is_held h w n =
      let w1 = destroy_callout platform outbound_tcp (close platform w) in
      let w2 = destroy_callout platform outbound_icmp_error w1 in
      let w3 = destroy_callout platform inbound_icmp_error w2 in
      let w4 = destroy_callout platform outbound_ipv4 w3 in
      let after2 = λ (x : Holder) (z : handle_of x w2.engine ≡ 0). null-assign x itself w4 (
        null-destroy_callout x outbound_ipv4 w3 (null-destroy_callout x inbound_icmp_error w2 z)) in
      let tcp = after2 (member outbound_tcp) (
        null-destroy_callout (member outbound_tcp) outbound_icmp_error w1
          (destroyed_callout outbound_tcp (close platform w))) in
      let error_out =
        after2 (member outbound_icmp_error) (destroyed_callout outbound_icmp_error w1) in
      let error_in = null-assign (member inbound_icmp_error) itself w4 (
        null-destroy_callout (member inbound_icmp_error) outbound_ipv4 w3
          (destroyed_callout inbound_icmp_error w2)) in
      let ipv4 =
        null-assign (member outbound_ipv4) itself w4 (destroyed_callout outbound_ipv4 w3) in
      ground (arith, assigned itself w4, tcp, error_out, error_in, ipv4)
