-- ===== src/Engine/Running.antt =====
-- What the controller, src/WFPController/main.cpp, leaves behind, and when it ends.
use basic_windows_drivers.Engine.Sequence.{and_then-keeps}
use basic_windows_drivers.Base.{ℕ, ◌≡◌, ◌≢◌, refl, ◌∙◌, ap, true, List, [], All}
use basic_windows_drivers.Sockets.Socket as Net
use basic_windows_drivers.Sockets.Ownership.{open_handles, close-connect}
use basic_windows_drivers.Engine.Platform.{Platform}
use basic_windows_drivers.Engine.State.{World}
use basic_windows_drivers.Engine.Operations.{
  Outcome, returned, thrown, open_filter_engine, register_provider, add_context, add_callouts,
  add_sublayer, add_filters, close,
}
use basic_windows_drivers.Engine.Controller.{
  Command, exit, open_engine, close_engine, register, context, callouts, sublayer, filter, all,
  connect, ttl, invalid, Turn, State, google, use_socket, after_engine, after_socket, set_up,
  run_command,
}

-- WinSock gives no null handle for the addresses of a turn, and closes what it is asked to.
abbrev pub NetworkIsUsable : Turn → Type 0
NetworkIsUsable turn =
    All (λ (a : Net.Address). a.opened ≢ 0) turn.addresses × (turn.close_ok ≡ true)

use_socket-closed :
    (prepare : Net.World → Net.World) (turn : Turn) (sockets : List Net.Call)
    → NetworkIsUsable turn
    → ((w : Net.World)
        → ((prepare w).trace ≡ w.trace) × ((prepare w).object.socket ≡ w.object.socket))
    → open_handles sockets ≡ []
    → open_handles (use_socket prepare turn sockets).0 ≡ []
unfolding use_socket Net.new_socket
use_socket-closed prepare turn sockets (n, ok) same h =
    let w : Net.World = record { object = Net.new_socket google 80; trace = sockets } in
    let (trace, socket) = same w in
    rw ok (
      close-connect [] turn.status turn.addresses (prepare w) n (rw socket refl)
        (ap open_handles trace ∙ h))

module _ (platform : Platform) (process_id : ℕ) where
  after_engine-world :
      (P : World → Type 0) (sockets : List Net.Call) (r : World × Outcome)
      → P (r.0)
      → P (after_engine sockets r).0.world
  unfolding after_engine
  after_engine-world P sockets (w, returned) p = p
  after_engine-world P sockets (w, thrown e) p = p

  after_engine-sockets :
      (sockets : List Net.Call) (r : World × Outcome) → (after_engine sockets r).0.sockets ≡ sockets
  unfolding after_engine
  after_engine-sockets sockets (w, returned) = refl
  after_engine-sockets sockets (w, thrown e) = refl

  after_socket_lem :
      (w : World) (r : List Net.Call × Net.Outcome)
      → ((after_socket w r).0.world ≡ w) × ((after_socket w r).0.sockets ≡ r.0)
  unfolding after_socket
  after_socket_lem w (sockets, Net.returned) = (refl, refl)
  after_socket_lem w (sockets, Net.thrown e) = (refl, refl)

  -- What every method of the engine keeps, every command keeps.
  module _ (P : World → Type 0) (opens : (w : World) → P w → P (open_filter_engine platform w).0)
      (registers : (w : World) → P w → P (register_provider platform w).0)
      (adds_context : (w : World) → P w → P (add_context platform process_id w).0)
      (adds_sublayer : (w : World) → P w → P (add_sublayer platform w).0)
      (adds_callouts : (w : World) → P w → P (add_callouts platform w).0)
      (adds_filters : (w : World) → P w → P (add_filters platform w).0)
      (closes : (w : World) → P w → P (close platform w)) where
    pub set_up-keeps : (w : World) → P w → P (set_up platform process_id w).0
    unfolding set_up
    set_up-keeps w p =
        and_then-keeps P _ _
          (and_then-keeps P _ _
            (and_then-keeps P _ _
              (and_then-keeps P _ _ (and_then-keeps P _ _ (opens w p) registers) adds_context)
              adds_sublayer)
            adds_callouts)
          adds_filters

    pub run_command-keeps :
        (c : Command) (turn : Turn) (st : State)
        → P st.world
        → P (run_command platform process_id c turn st).0.world
    unfolding run_command
    run_command-keeps exit turn st p = p
    run_command-keeps open_engine turn st p = after_engine-world P st.sockets _ (opens st.world p)
    run_command-keeps close_engine turn st p = closes st.world p
    run_command-keeps register turn st p = after_engine-world P st.sockets _ (registers st.world p)
    run_command-keeps context turn st p =
        after_engine-world P st.sockets _ (adds_context st.world p)
    run_command-keeps callouts turn st p =
        after_engine-world P st.sockets _ (adds_callouts st.world p)
    run_command-keeps sublayer turn st p =
        after_engine-world P st.sockets _ (adds_sublayer st.world p)
    run_command-keeps filter turn st p = after_engine-world P st.sockets _ (adds_filters st.world p)
    run_command-keeps all turn st p = after_engine-world P st.sockets _ (set_up-keeps st.world p)
    run_command-keeps connect turn st p = rw ((after_socket_lem st.world _).0) p
    run_command-keeps ttl turn st p = p
    run_command-keeps invalid turn st p = p

  pub run_command-open_handles :
      (c : Command) (turn : Turn) (st : State)
      → NetworkIsUsable turn
      → open_handles st.sockets ≡ []
      → open_handles (run_command platform process_id c turn st).0.sockets ≡ []
  unfolding run_command Net.set_preconnect_ttl
  run_command-open_handles exit turn st u h = h
  run_command-open_handles open_engine turn st u h = rw (after_engine-sockets st.sockets _) h
  run_command-open_handles close_engine turn st u h = h
  run_command-open_handles register turn st u h = rw (after_engine-sockets st.sockets _) h
  run_command-open_handles context turn st u h = rw (after_engine-sockets st.sockets _) h
  run_command-open_handles callouts turn st u h = rw (after_engine-sockets st.sockets _) h
  run_command-open_handles sublayer turn st u h = rw (after_engine-sockets st.sockets _) h
  run_command-open_handles filter turn st u h = rw (after_engine-sockets st.sockets _) h
  run_command-open_handles all turn st u h = rw (after_engine-sockets st.sockets _) h
  run_command-open_handles connect turn st u h =
      rw ((after_socket_lem st.world _).1)
        (use_socket-closed (λ w. w) turn st.sockets u (λ w. (refl, refl)) h)
  run_command-open_handles ttl turn st u h =
      use_socket-closed (Net.set_preconnect_ttl 1) turn st.sockets u (λ w. (refl, refl)) h
  run_command-open_handles invalid turn st u h = h
