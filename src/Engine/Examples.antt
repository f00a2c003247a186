-- ===== src/Engine/Examples.antt =====
-- The theorems on the controller's filter engine and main loop at concrete inputs.
use basic_windows_drivers.Base.{
  ℕ, suc, ◌+◌, ◌*◌, ◌<◌, ◌≡◌, refl, true, List, [], ◌∷◌, Option, none, some, arith,
}
use basic_windows_drivers.Errors.Classes.{Error}
use basic_windows_drivers.Errors.Released.{IsReleased}
use basic_windows_drivers.Errors.Examples.{one_message, here}
use basic_windows_drivers.Engine.Startup.{Setting, program}
use basic_windows_drivers.Engine.Scope.{starts, cleanups, Explains, program-balanced}
use Prim.Native.String.{String}
use basic_windows_drivers.Sockets.Socket.{Address}
use basic_windows_drivers.Sockets.Ownership.{open_handles}
use basic_windows_drivers.Engine.Platform.{
  Request, engine_open, engine_close, provider_add, provider_context_add, sublayer_add, callout_add,
  callout_delete_by_key, filter_add, Call, made, Platform,
}
use basic_windows_drivers.Engine.State.{outbound_tcp}
use basic_windows_drivers.Engine.Installed.{present, key_of, IsObliging}
use basic_windows_drivers.Engine.Sessions.{open_count, refusals, orderly, GivesNewHandles, Tracks}
use basic_windows_drivers.Engine.Refinement.{AllAt}
use basic_windows_drivers.Engine.Controller.{
  all, after_engine, command, State, Turn, run_command, main, set_up,
}
use basic_windows_drivers.Engine.Operations.{
  returned, new_engine, open_filter_engine, register_provider, ask,
}
use basic_windows_drivers.Engine.Handles.{assign, release, perform}
use basic_windows_drivers.Engine.Steps.{IsWilling}
use basic_windows_drivers.Engine.SetUp.{set_up-present}
use basic_windows_drivers.Engine.Running.{NetworkIsUsable}
use basic_windows_drivers.Engine.Ending.{Gives, fresh, continues, main-none}
use basic_windows_drivers.Engine.Leavings.{
  fresh-Tracks, fresh-AllAt, run_command-Tracks, run_command-AllAt, main-open_count, main-present,
}

-- A platform that does all that it is asked to, and gives one number.
abbrev pub willing : Platform
willing trace request = record { status = 0; number = 7 }

abbrev address : Address
address = record {
  family = 2;
  opened = 104;
  get_option_ok = true;
  set_option_ok = true;
  connect_ok = true;
  close_ok = true;
}

abbrev turn : String → Turn
turn word = record { word = word; status = 0; addresses = address ∷ []; close_ok = true }

abbrev session : List Turn
session = turn "all" ∷ turn "connect" ∷ turn "callouts" ∷ turn "exit" ∷ []

-- Words that do not end the loop, and an invalid one at the end.
abbrev idling : List Turn
idling = turn "open" ∷ turn "register" ∷ turn "quit" ∷ []

pub willing-IsObliging : IsObliging willing
willing-IsObliging = record {
  deletes = λ trace h key. refl;
  identifies = λ trace h key provider layer flags. omega arith;
}

usable : (word : String) → NetworkIsUsable (turn word)
usable word = ((omega arith, tt), refl)

-- A platform that numbers what it gives, and closes no session.
abbrev issued : List Call → ℕ
issued [] = 0
issued (made request answer ∷ trace) = answer.number + issued trace

abbrev close_status : Request → ℕ
close_status (engine_close h) = 5
close_status _ = 0

abbrev numbering : Platform
numbering trace request = record { status = close_status request; number = suc (issued trace) }

-- A handle that is larger than all that were given is open nowhere.
open_count-issued : (h : ℕ) (trace : List Call) → issued trace < h → open_count h trace ≡ 0
unfolding open_count
open_count-issued h [] larger = refl
open_count-issued h (made engine_open answer ∷ trace) larger =
    ground (arith, open_count-issued h trace (omega arith))
open_count-issued h (made (engine_close k) answer ∷ trace) larger =
    ground (arith, open_count-issued h trace (omega arith))
open_count-issued h (made (provider_add k key) answer ∷ trace) larger =
    open_count-issued h trace (omega arith)
open_count-issued h (made (provider_context_add k key provider n) answer ∷ trace) larger =
    open_count-issued h trace (omega arith)
open_count-issued h (made (sublayer_add k key provider) answer ∷ trace) larger =
    open_count-issued h trace (omega arith)
open_count-issued h (made (callout_add k key provider layer n) answer ∷ trace) larger =
    open_count-issued h trace (omega arith)
open_count-issued h (made (callout_delete_by_key k key) answer ∷ trace) larger =
    open_count-issued h trace (omega arith)
open_count-issued h (made (filter_add k layer sublayer callout context conditions) answer ∷ trace)
      larger =
    open_count-issued h trace (omega arith)

numbering-GivesNewHandles : GivesNewHandles numbering
numbering-GivesNewHandles trace ok =
    (omega arith, open_count-issued (suc (issued trace)) trace (omega arith))

run_command-Tracks_example : Tracks 0 (run_command numbering 42 all (turn "all") fresh).0.world
run_command-Tracks_example =
    run_command-Tracks numbering 42 all (turn "all") fresh numbering-GivesNewHandles fresh-Tracks

run_command-AllAt_example : AllAt (run_command willing 42 all (turn "all") fresh).0.world
run_command-AllAt_example =
    run_command-AllAt willing 42 all (turn "all") fresh willing-IsObliging fresh-AllAt

main-open_count_example :
    Gives
      (λ r.
        (open_count 1 r.1.world.trace ≡ refusals 1 r.1.world.trace)
        × (orderly r.1.world.trace ≡ true))
      (main numbering 42 5 0 (turn "") session)
unfolding command
main-open_count_example =
    main-open_count numbering 42 5 0 (turn "") session 1 numbering-GivesNewHandles (omega arith)
      refl

main-present_example :
    Gives
      (λ r. (present (key_of outbound_tcp) r.1.world.trace ≡ 0) × (open_handles r.1.sockets ≡ []))
      (main willing 42 5 0 (turn "") session)
unfolding command
main-present_example =
    main-present willing 42 5 0 (turn "") session outbound_tcp willing-IsObliging
      (usable "all", (usable "connect", (usable "callouts", (usable "exit", tt)))) (omega arith)
      refl

main-none_example : main willing 42 1000 0 (turn "") idling ≡ none
unfolding continues run_command command open_filter_engine register_provider ask assign release
    perform after_engine new_engine
main-none_example = main-none willing 42 1000 (turn "") idling refl refl

pub willing-IsWilling : IsWilling willing
willing-IsWilling trace request = refl

set_up-present_example :
    ((set_up willing 42 fresh.world).1 ≡ returned)
    × ((set_up willing 42 fresh.world).0.engine.engine_handle ≡ 7)
    × (present (key_of outbound_tcp) (set_up willing 42 fresh.world).0.trace ≡ 7)
set_up-present_example =
    set_up-present willing 42 fresh.world outbound_tcp willing-IsWilling willing-IsObliging
      (omega arith) fresh-AllAt

-- WSASYSNOTREADY.
program-balanced_example :
    (code : ℕ) × (st : State) × (w : Setting) × (error : Option Error) × (program one_message
        (λ a b. a + b * 256)
        here
        willing
        42
        5
        10091
        (turn "")
        session
      ≡ some (code, st, w, error))
    × (cleanups w.calls ≡ starts w.calls)
    × Explains 10091 code error
    × IsReleased [] w.messages
unfolding command
program-balanced_example =
    program-balanced one_message (λ a b. a + b * 256) here willing 42 5 10091 (turn "") session
      (omega arith) (omega arith) refl
