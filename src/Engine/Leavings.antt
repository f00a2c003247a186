-- ===== src/Engine/Leavings.antt =====
-- What the commands of the controller, src/WFPController/main.cpp, keep, and what main leaves behind: the
-- sessions, the callouts and the sockets.
use basic_windows_drivers.Base.{
  ℕ, ◌<◌, ◌≡◌, ◌≢◌, refl, ◌∙◌, sym, subst, inl, inr, Bool-cases, ◌==◌, true, false, List, [], ◌∷◌,
  length, All, arith,
}
use basic_windows_drivers.Sockets.Ownership.{open_handles}
use basic_windows_drivers.Engine.Platform.{Platform}
use basic_windows_drivers.Engine.State.{
  World, Slot, outbound_ipv4, inbound_icmp_error, outbound_icmp_error, outbound_tcp, callout_of,
}
use basic_windows_drivers.Engine.Operations.{new_engine, destroy}
use basic_windows_drivers.Engine.Sessions.{open_count, refusals, orderly, GivesNewHandles, Tracks}
use basic_windows_drivers.Engine.Handles.{is_held}
use basic_windows_drivers.Engine.Tracking.{
  held-callout_of, add_callouts-Tracks, close-Tracks, destroy-Tracks, open-Tracks,
}
use basic_windows_drivers.Engine.Tracking.Adding.{
  register_provider-Tracks, add_sublayer-Tracks, add_context-Tracks, add_filters-Tracks,
}
use basic_windows_drivers.Engine.Installed.{present, key_of, IsObliging}
use basic_windows_drivers.Engine.Refinement.{
  AllAt, add_callouts-At, register_provider-At, add_sublayer-At, add_context-At, add_filters-At,
  close-At, destroy-At, open-At,
}
use basic_windows_drivers.Engine.Destruction.{destroy-is_held}
use basic_windows_drivers.Engine.Controller.{
  Command, command, Turn, State, run_command, ended, main,
}
use basic_windows_drivers.Engine.Running.{
  NetworkIsUsable, run_command-keeps, run_command-open_handles,
}
use basic_windows_drivers.Engine.Ending.{Gives, exits, fresh, main-Gives}

-- If FwpmEngineOpen0, when it succeeds, gives a handle that is not null and not that of an open session,
-- then every command keeps this, whatever the platform answers otherwise: one session is open for each
-- handle that the engine and its callouts hold, and one for each time that the platform refused to close
-- it, there is none with a null handle, and every call was made on a session that was open (AddContext's
-- possibly on none).
pub run_command-Tracks :
    (platform : Platform) (process_id : ℕ) (c : Command) (turn : Turn) (st : State)
    → GivesNewHandles platform
    → Tracks 0 st.world
    → Tracks 0 (run_command platform process_id c turn st).0.world
run_command-Tracks platform process_id c turn st new t =
    run_command-keeps platform process_id (Tracks 0) (λ w. open-Tracks platform w new)
      (register_provider-Tracks platform) (add_context-Tracks platform process_id)
      (add_sublayer-Tracks platform) (add_callouts-Tracks platform) (add_filters-Tracks platform)
      (close-Tracks platform) c turn st t

-- If the platform deletes the callouts that it is asked to and gives those that it adds an identifier that
-- is not 0, and each member of the engine has an identifier exactly while the platform holds its callout,
-- in the session that the member holds, then this is so after every command.
pub run_command-AllAt :
    (platform : Platform) (process_id : ℕ) (c : Command) (turn : Turn) (st : State)
    → IsObliging platform
    → AllAt st.world
    → AllAt (run_command platform process_id c turn st).0.world
run_command-AllAt platform process_id c turn st obliging a =
    run_command-keeps platform process_id AllAt (open-At platform obliging)
      (register_provider-At platform obliging) (add_context-At platform obliging process_id)
      (add_sublayer-At platform obliging) (add_callouts-At platform obliging)
      (add_filters-At platform obliging) (close-At platform obliging) c turn st a

pub fresh-Tracks : Tracks 0 fresh.world
unfolding open_count refusals orderly new_engine
fresh-Tracks = record {
  sessions = λ h n. ground arith;
  null_open = refl;
  null_refused = refl;
  in_order = refl;
}

pub fresh-AllAt : AllAt fresh.world
unfolding present new_engine
fresh-AllAt outbound_ipv4 = (refl, λ n. absurd (n refl))
fresh-AllAt inbound_icmp_error = (refl, λ n. absurd (n refl))
fresh-AllAt outbound_icmp_error = (refl, λ n. absurd (n refl))
fresh-AllAt outbound_tcp = (refl, λ n. absurd (n refl))

no_condition : (turns : List Turn) → All (λ (turn : Turn). Unit {0}) turns
no_condition [] = tt
no_condition (turn ∷ turns) = (tt, no_condition turns)

-- What is open when nobody holds a session.
destroyed_count :
    (h : ℕ) (w : World)
    → Tracks 0 w
    → (h ≢ 0 → is_held h w.engine ≡ false)
    → open_count h w.trace ≡ refusals h w.trace
destroyed_count h w t unheld = elim (Bool-cases (h == 0)) [
  | inl null ↦
      let z : h ≡ 0 = ground arith in
      subst (λ k. open_count k w.trace ≡ refusals k w.trace) (sym z)
        (t.null_open ∙ sym t.null_refused)
  | inr handle ↦ let n : h ≢ 0 = ground arith in ground (arith, t.sessions h n, unheld n)
]

-- If a word of the input is "exit", and FwpmEngineOpen0, when it succeeds, gives a handle that is not null
-- and not that of an open session, then main returns, whatever the platform and the network answer
-- otherwise; it needs no more turns than there are words, and one. Of each handle, as many sessions are
-- then open as the platform has refused to close, and so none where it refused nothing; every call was
-- made on a session that was open (AddContext's possibly on none).
pub main-open_count :
    (platform : Platform) (process_id fuel wsa_startup : ℕ) (unread : Turn) (turns : List Turn)
    (h : ℕ)
    → GivesNewHandles platform
    → length turns < fuel
    → exits turns ≡ true
    → Gives
        (λ r.
          (open_count h r.1.world.trace ≡ refusals h r.1.world.trace)
          × (orderly r.1.world.trace ≡ true))
        (main platform process_id fuel wsa_startup unread turns)
unfolding ended
main-open_count platform process_id fuel wsa_startup unread turns h new enough e =
    main-Gives platform process_id (λ st. Tracks 0 st.world) (λ turn. Unit {0})
      (λ r.
        (open_count h r.1.world.trace ≡ refusals h r.1.world.trace)
        × (orderly r.1.world.trace ≡ true))
      (λ turn st u t. run_command-Tracks platform process_id (command turn.word) turn st new t)
      (λ code st t.
        let w = destroy platform st.world in
        let t' = destroy-Tracks platform st.world t in
        (destroyed_count h w t' (destroy-is_held platform h st.world), t'.in_order))
      fuel wsa_startup unread turns enough e (no_condition turns) fresh-Tracks

-- main returns where it reads "exit".
pub main-returns :
    (platform : Platform) (process_id fuel wsa_startup : ℕ) (unread : Turn) (turns : List Turn)
    → length turns < fuel
    → exits turns ≡ true
    → Gives (λ r. Unit {0}) (main platform process_id fuel wsa_startup unread turns)
main-returns platform process_id fuel wsa_startup unread turns enough e =
    main-Gives platform process_id (λ st. Unit {0}) (λ turn. Unit {0}) (λ r. Unit {0})
      (λ turn st u q. tt) (λ code st q. tt) fuel wsa_startup unread turns enough e
      (no_condition turns) tt

-- If a word of the input is "exit", the platform deletes the callouts that it is asked to and gives those
-- that it adds an identifier that is not 0, WinSock gives no null handle and closesocket succeeds, then
-- main returns, with as many turns as there are words, and one. The platform then holds none of the four
-- callouts, and no socket is open.
pub main-present :
    (platform : Platform) (process_id fuel wsa_startup : ℕ) (unread : Turn) (turns : List Turn)
    (s : Slot)
    → IsObliging platform
    → All NetworkIsUsable turns
    → length turns < fuel
    → exits turns ≡ true
    → Gives
        (λ r. (present (key_of s) r.1.world.trace ≡ 0) × (open_handles r.1.sockets ≡ []))
        (main platform process_id fuel wsa_startup unread turns)
unfolding ended
main-present platform process_id fuel wsa_startup unread turns s obliging usable enough e =
    main-Gives platform process_id (λ st. AllAt st.world × (open_handles st.sockets ≡ []))
      NetworkIsUsable
      (λ r. (present (key_of s) r.1.world.trace ≡ 0) × (open_handles r.1.sockets ≡ []))
      (λ turn st u q. (
        run_command-AllAt platform process_id (command turn.word) turn st obliging (q.0),
        run_command-open_handles platform process_id (command turn.word) turn st u (q.1),
      ))
      (λ code st q.
        let w = destroy platform st.world in
        let h = (callout_of s w.engine).engine_handle in
        let a = destroy-At platform obliging st.world (q.0) s in
        (ground (arith, a.0, held-callout_of s w.engine, destroy-is_held platform h st.world), q.1))
      fuel wsa_startup unread turns enough e usable (fresh-AllAt, refl)
