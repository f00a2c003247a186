-- ===== src/Engine/Ending.antt =====
-- When the loop of src/WFPController/main.cpp ends, and when it cannot.
use basic_windows_drivers.Base.{
  ℕ, zero, suc, ◌<◌, ◌≡◌, refl, Bool, true, false, ◌||◌, List, [], ◌∷◌, Option, none, some, ◌==◌,
  length, All, Bool-cases, inl, inr, arith,
}
use mathlib.Core.Option
use basic_windows_drivers.Engine.Platform.{Platform}
use basic_windows_drivers.Engine.Operations.{new_engine}
use basic_windows_drivers.Engine.Controller.{
  Command, exit, open_engine, close_engine, register, context, callouts, sublayer, filter, all,
  connect, ttl, invalid, command, Turn, State, Next, goes_on, ends, run_command, main_loop, ended,
  main,
}

-- A result that there is, and that satisfies a predicate.
abbrev pub Gives : (ℕ × State → Type 0) → Option (ℕ × State) → Type 0
Gives P none = ⊥
Gives P (some r) = P r

abbrev is_exit : Command → Bool
is_exit exit = true
is_exit _ = false

-- Whether one of the words is "exit".
abbrev pub exits : List Turn → Bool
exits [] = false
exits (turn ∷ turns) = let rest = exits turns in is_exit (command turn.word) || rest

-- The commands that neither end main nor can throw out of it.
abbrev pub stays : Command → Bool
stays close_engine = true
stays ttl = true
stays invalid = true
stays _ = false

-- The state in which main's loop starts.
abbrev pub fresh : State
fresh = record { world = record { engine = new_engine; trace = [] }; sockets = [] }

-- The word that was read last.
abbrev pub last_of : Turn → List Turn → Turn
last_of last [] = last
last_of last (turn ∷ turns) = last_of turn turns

abbrev proceeds : Next → Bool → Bool
proceeds goes_on rest = rest
proceeds (ends code) rest = false

proceeds_lem :
    (next : Next) (rest : Bool) → proceeds next rest ≡ true → (next ≡ goes_on) × (rest ≡ true)
proceeds_lem goes_on rest e = (refl, e)
proceeds_lem (ends code) rest e = absurd (ground arith)

module _ (platform : Platform) (process_id : ℕ) where
  after_command :
      (P : ℕ × State → Type 0) (r : State × Next) (loop : State → Option (ℕ × State))
      → ((code : ℕ) → P (code, r.0))
      → (r.1 ≡ goes_on → Gives P (loop (r.0)))
      → Gives P
          (let (st', next) = r in elim next [ ends code ↦ some (code, st') | goes_on ↦ loop st' ])
  after_command P (st, goes_on) loop now later = later refl
  after_command P (st, ends code) loop now later = now code

  exits-rest :
      (c : Command) (turn : Turn) (turns : List Turn) (st : State)
      → (is_exit c || exits turns) ≡ true
      → (run_command platform process_id c turn st).1 ≡ goes_on
      → exits turns ≡ true
  unfolding run_command
  exits-rest exit turn turns st e g = cc
  exits-rest open_engine turn turns st e g = e
  exits-rest close_engine turn turns st e g = e
  exits-rest register turn turns st e g = e
  exits-rest context turn turns st e g = e
  exits-rest callouts turn turns st e g = e
  exits-rest sublayer turn turns st e g = e
  exits-rest filter turn turns st e g = e
  exits-rest all turn turns st e g = e
  exits-rest connect turn turns st e g = e
  exits-rest ttl turn turns st e g = e
  exits-rest invalid turn turns st e g = e

  -- The loop ends by the word "exit" at the latest, in a state that has what every command keeps.
  main_loop-Gives :
      (Q : State → Type 0) (U : Turn → Type 0)
      → ((turn : Turn) (st : State)
          → U turn
          → Q st
          → Q (run_command platform process_id (command turn.word) turn st).0)
      → (fuel : ℕ) (last : Turn) (turns : List Turn) (st : State) → length turns < fuel
      → exits turns ≡ true
      → All U turns
      → Q st
      → Gives (λ r. Q (r.1)) (main_loop platform process_id fuel last turns st)
  unfolding main_loop
  main_loop-Gives Q U keeps zero last turns st enough e u q = absurd (omega arith)
  main_loop-Gives Q U keeps (suc fuel) last [] st enough e u q = cc
  main_loop-Gives Q U keeps (suc fuel) last (turn ∷ turns) st enough e (u, us) q =
      let r = run_command platform process_id (command turn.word) turn st in
      let q' = keeps turn st u q in
      after_command (λ r. Q (r.1)) r (main_loop platform process_id fuel turn turns) (λ code. q')
        (λ g.
          main_loop-Gives Q U keeps fuel turn turns (r.0) (omega arith)
            (exits-rest (command turn.word) turn turns st e g) us q')

  Gives-map :
      (P : ℕ × State → Type 0) (f : ℕ × State → ℕ × State) (o : Option (ℕ × State))
      → Gives (λ r. P (f r)) o
      → Gives P (Option.map f o)
  Gives-map P f none g = g
  Gives-map P f (some r) g = g

  -- What every command keeps, main has when it destroys the engine.
  pub main-Gives :
      (Q : State → Type 0) (U : Turn → Type 0) (P : ℕ × State → Type 0)
      → ((turn : Turn) (st : State)
          → U turn
          → Q st
          → Q (run_command platform process_id (command turn.word) turn st).0)
      → ((code : ℕ) (st : State) → Q st → P (ended platform process_id code st))
      → (fuel wsa_startup : ℕ) (unread : Turn) (turns : List Turn) → length turns < fuel
      → exits turns ≡ true
      → All U turns
      → Q fresh
      → Gives P (main platform process_id fuel wsa_startup unread turns)
  unfolding main
  main-Gives Q U P keeps at_end fuel wsa_startup unread turns enough exit_read u q =
      elim (Bool-cases (wsa_startup == 0)) [
        | inr f ↦ rw f (at_end 1 fresh q)
        | inl t ↦ rw t (
            Gives-map P (λ r. ended platform process_id (r.0) (r.1))
              (main_loop platform process_id fuel (record unread { word = "" }) turns fresh)
              (later (main_loop platform process_id fuel (record unread { word = "" }) turns fresh)
                (main_loop-Gives Q U keeps fuel (record unread { word = "" }) turns fresh enough
                  exit_read u q)))
      ]
    where
      later :
          (o : Option (ℕ × State))
          → Gives (λ r. Q (r.1)) o
          → Gives (λ r. P (ended platform process_id (r.0) (r.1))) o
      later none g = g
      later (some r) g = at_end (r.0) (r.1) g

  stays-goes_on :
      (c : Command) (turn : Turn) (st : State)
      → stays c ≡ true
      → (run_command platform process_id c turn st).1 ≡ goes_on
  unfolding run_command
  stays-goes_on close_engine turn st s = refl
  stays-goes_on ttl turn st s = refl
  stays-goes_on invalid turn st s = refl
  stays-goes_on _ turn st s = cc

  again :
      (r : State × Next) (loop : State → Option (ℕ × State))
      → r.1 ≡ goes_on
      → loop (r.0) ≡ none
      → (let (st', next) = r in elim next [ ends code ↦ some (code, st') | goes_on ↦ loop st' ])
        ≡ none
  again (st, goes_on) loop g never = never
  again (st, ends code) loop g never = cc

  -- Whether the loop goes on after each of the words, from a state.
  unfoldable pub continues : List Turn → State → Bool
  continues [] st = true
  continues (turn ∷ turns) st =
      let r = run_command platform process_id (command turn.word) turn st in
      let rest = continues turns (r.0) in proceeds (r.1) rest

  main_loop-none :
      (fuel : ℕ) (last : Turn) (turns : List Turn) (st : State)
      → continues turns st ≡ true
      → stays (command (last_of last turns).word) ≡ true
      → main_loop platform process_id fuel last turns st ≡ none
  unfolding main_loop continues
  main_loop-none zero last turns st e s = refl
  main_loop-none (suc fuel) last [] st e s =
      let r = run_command platform process_id (command last.word) last st in
      again r (main_loop platform process_id fuel last [])
        (stays-goes_on (command last.word) last st s) (main_loop-none fuel last [] (r.0) refl s)
  main_loop-none (suc fuel) last (turn ∷ turns) st e s =
      let r = run_command platform process_id (command turn.word) turn st in
      let (on, rest) = proceeds_lem (r.1) (continues turns (r.0)) e in
      again r (main_loop platform process_id fuel turn turns) on
        (main_loop-none fuel turn turns (r.0) rest s)

  -- If WSAStartup succeeds, no word of the input ends main's loop, and the last word, if there is one, is
  -- "close", "ttl" or no command, main does not return, however long it runs: it goes on with that word
  -- after the end of the input.
  pub main-none :
      (fuel : ℕ) (unread : Turn) (turns : List Turn)
      → continues turns fresh ≡ true
      → stays (command (last_of (record unread { word = "" }) turns).word) ≡ true
      → main platform process_id fuel 0 unread turns ≡ none
  unfolding main
  main-none fuel unread turns e s =
      rw (main_loop-none fuel (record unread { word = "" }) turns fresh e s)
