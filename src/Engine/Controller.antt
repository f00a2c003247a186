-- ===== src/Engine/Controller.antt =====
-- The controller's main, src/WFPController/main.cpp: words are read and each is one command to the engine
-- or to a socket. The loop runs on fuel, and `none` says that it ran out. What is printed is left out.
use basic_windows_drivers.Base.{
  ℕ, zero, suc, Bool, List, [], ◌∷◌, Option, none, some, if◌then◌else◌, ◌==◌,
}
use Prim.Native.String.{String}
use text.Mathlib.Text.{◌==◌ as str_eq}
use mathlib.Core.Option
use basic_windows_drivers.Sockets.Socket as Net
use basic_windows_drivers.Engine.Platform.{Platform}
use basic_windows_drivers.Engine.State.{World}
use basic_windows_drivers.Engine.Operations.{
  Outcome, returned, thrown, Action, and_then, new_engine, open_filter_engine, register_provider,
  add_context, add_callouts, add_sublayer, add_filters, close, destroy,
}

pub data Command : Type 0 where
  exit open_engine close_engine register context callouts sublayer filter : Command
  all connect ttl invalid : Command

-- The ladder of comparisons of the word.
unfoldable pub command : String → Command
command input =
    if str_eq input "exit"
    then exit
    else if str_eq input "open"
    then open_engine
    else if str_eq input "close"
    then close_engine
    else if str_eq input "register"
    then register
    else if str_eq input "context"
    then context
    else if str_eq input "callouts"
    then callouts
    else if str_eq input "sublayer"
    then sublayer
    else if str_eq input "filter"
    then filter
    else if str_eq input "all"
    then all
    else if str_eq input "connect"
    then connect
    else if str_eq input "ttl"
    then ttl
    else invalid

-- A word of the input, and what the network answers if that word connects a socket: the status of the
-- resolution, the addresses, and whether closesocket succeeds in the destructor.
pub record Turn : Type 0 where
  pub word : String
  pub status : ℕ
  pub addresses : List Net.Address
  pub close_ok : Bool

-- The engine, and the calls made of WinSock.
pub record State : Type 0 where
  pub world : World
  pub sockets : List Net.Call

-- What a turn leads to: another one, or the end of main with an exit code.
pub data Next : Type 0 where
  goes_on : Next
  ends : ℕ → Next

-- "142.250.70.164".
abbrev pub google : List ℕ
google = 49 ∷ 52 ∷ 50 ∷ 46 ∷ 50 ∷ 53 ∷ 48 ∷ 46 ∷ 55 ∷ 48 ∷ 46 ∷ 49 ∷ 54 ∷ 52 ∷ []

-- A socket that lives for one command: it is made, prepared, connected and destroyed.
unfoldable pub use_socket :
    (Net.World → Net.World) → Turn → List Net.Call → List Net.Call × Net.Outcome
use_socket prepare turn sockets =
    let w : Net.World = record { object = Net.new_socket google 80; trace = sockets } in
    let (w, outcome) = Net.connect turn.status turn.addresses (prepare w) in
    ((Net.close turn.close_ok w).trace, outcome)

-- An exception of the engine ends main with 1.
unfoldable pub after_engine : List Net.Call → World × Outcome → State × Next
after_engine sockets (w, returned) = (record { world = w; sockets = sockets }, goes_on)
after_engine sockets (w, thrown e) = (record { world = w; sockets = sockets }, ends 1)

-- An exception of the socket ends main with 1.
unfoldable pub after_socket : World → List Net.Call × Net.Outcome → State × Next
after_socket w (sockets, Net.returned) = (record { world = w; sockets = sockets }, goes_on)
after_socket w (sockets, Net.thrown e) = (record { world = w; sockets = sockets }, ends 1)

module _ (platform : Platform) (process_id : ℕ) where
  -- The commands of "all", in order.
  unfoldable pub set_up : Action
  set_up w =
      and_then
        (and_then
          (and_then
            (and_then (and_then (open_filter_engine platform w) (register_provider platform))
              (add_context platform process_id))
            (add_sublayer platform))
          (add_callouts platform))
        (add_filters platform)

  unfoldable pub run_command : Command → Turn → State → State × Next
  run_command exit turn st = (st, ends 0)
  run_command open_engine turn st = after_engine st.sockets (open_filter_engine platform st.world)
  run_command close_engine turn st = (record st { world = close platform st.world }, goes_on)
  run_command register turn st = after_engine st.sockets (register_provider platform st.world)
  run_command context turn st = after_engine st.sockets (add_context platform process_id st.world)
  run_command callouts turn st = after_engine st.sockets (add_callouts platform st.world)
  run_command sublayer turn st = after_engine st.sockets (add_sublayer platform st.world)
  run_command filter turn st = after_engine st.sockets (add_filters platform st.world)
  run_command all turn st = after_engine st.sockets (set_up st.world)
  run_command connect turn st = after_socket st.world (use_socket (λ w. w) turn st.sockets)
  -- The exception is caught and printed.
  run_command ttl turn st =
      (record st { sockets = (use_socket (Net.set_preconnect_ttl 1) turn st.sockets).0 }, goes_on)
  run_command invalid turn st = (st, goes_on)

  -- The loop, with the turn read last. At the end of the input `std::cin >> input` leaves the word as it
  -- was, and the loop goes on with it.
  unfoldable pub main_loop : ℕ → Turn → List Turn → State → Option (ℕ × State)
  main_loop zero last turns st = none
  main_loop (suc fuel) last [] st =
      let (st', next) = run_command (command last.word) last st in
      elim next [ ends code ↦ some (code, st') | goes_on ↦ main_loop fuel last [] st' ]
  main_loop (suc fuel) last (turn ∷ turns) st =
      let (st', next) = run_command (command turn.word) turn st in
      elim next [ ends code ↦ some (code, st') | goes_on ↦ main_loop fuel turn turns st' ]

  -- The end of main, which destroys the engine.
  unfoldable pub ended : ℕ → State → ℕ × State
  ended code st = (code, record st { world = destroy platform st.world })

  -- main, from the engine's construction to its destruction, with the status of WSAStartup. The word is
  -- empty until one is read; `unread` says what the network would answer to it.
  unfoldable pub main : ℕ → ℕ → Turn → List Turn → Option (ℕ × State)
  main fuel wsa_startup unread turns =
      let start : State = record {
        world = record { engine = new_engine; trace = [] };
        sockets = [];
      } in
      if wsa_startup == 0
      then Option.map (λ (r : ℕ × State). ended (r.0) (r.1))
          (main_loop fuel (record unread { word = "" }) turns start)
      else some (ended 1 start)
