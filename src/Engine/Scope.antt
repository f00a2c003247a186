-- ===== src/Engine/Scope.antt =====
-- What main of src/WFPController/main.cpp makes of WinSock's start.
use basic_windows_drivers.Base.{
  ℕ, ◌+◌, ◌<◌, ◌^◌, ◌≡◌, ◌≢◌, refl, true, false, List, [], ◌∷◌, length, Option, none, some,
  if◌then◌else◌, ◌==◌, Bool-cases, inl, inr, arith,
}
use basic_windows_drivers.Errors.Format.{codes, SourceLocation}
use basic_windows_drivers.Errors.Translate as Messages
use basic_windows_drivers.Errors.Classes.{Error, winsock_error_code}
use basic_windows_drivers.Errors.Released.{IsReleased, errors-IsReleased}
use basic_windows_drivers.Errors.Reading.{Says, errors-code_in}
use basic_windows_drivers.Engine.Platform.{Platform}
use basic_windows_drivers.Engine.Controller.{Turn, State, main, ended}
use basic_windows_drivers.Engine.Startup.{
  InitCall, wsa_startup, wsa_cleanup, Setting, initialize, winsock_init, destroy_winsock_init,
  program,
}
use basic_windows_drivers.Engine.Ending.{Gives, exits, fresh}
use basic_windows_drivers.Engine.Leavings.{main-returns}

-- How often WinSock was started, and how often it was given up.
abbrev pub starts : List InitCall → ℕ
starts [] = 0
starts (wsa_startup version status ∷ calls) = (if status == 0 then 1 else 0) + starts calls
starts (wsa_cleanup ∷ calls) = starts calls

abbrev pub cleanups : List InitCall → ℕ
cleanups [] = 0
cleanups (wsa_startup version status ∷ calls) = cleanups calls
cleanups (wsa_cleanup ∷ calls) = 1 + cleanups calls

-- The exception is there if WinSock did not start, and says its status; main then answers 1.
abbrev pub Explains : ℕ → ℕ → Option Error → Type 0
Explains status code none = status ≡ 0
Explains status code (some e) =
    (status ≢ 0)
    × (code ≡ 1)
    × Says (codes "Failed to initialise WinSock") status (codes "WinSock") e

result :
    (P : ℕ × State → Type 0) (o : Option (ℕ × State)) → Gives P o → (r : ℕ × State) × (o ≡ some r)
result P none g = absurd g
result P (some r) g = (r, refl)

startup_failed :
    (platform : Platform) (process_id fuel status : ℕ) (unread : Turn) (turns : List Turn)
    → (status == 0) ≡ false
    → main platform process_id fuel status unread turns ≡ some (ended platform process_id 1 fresh)
unfolding main
startup_failed platform process_id fuel status unread turns failed = rw (failed) refl

-- If a word of the input is "exit", and there are as many turns as words, and one, main returns, whatever
-- the system, the platform and the network answer, for a status of WSAStartup below 2 ^ 32. WSACleanup has
-- then been called as often as WSAStartup has succeeded. There is an exception exactly if the status is
-- not 0: main then answers 1, and the exception's code and the digits of its message are that status. No
-- module is left loaded and no buffer allocated.
pub program-balanced :
    (system : Messages.System) (make_word : ℕ → ℕ → ℕ) (location : SourceLocation)
    (platform : Platform) (process_id fuel status : ℕ) (unread : Turn) (turns : List Turn)
    → status < 2 ^ 32
    → length turns < fuel
    → exits turns ≡ true
    → (code : ℕ) × (st : State) × (w : Setting) × (error : Option Error) × (program system make_word
          location platform process_id fuel status unread turns
        ≡ some (code, st, w, error))
      × (cleanups w.calls ≡ starts w.calls)
      × Explains status code error
      × IsReleased [] w.messages
unfolding program winsock_init initialize destroy_winsock_init ended
program-balanced system make_word location platform process_id fuel status unread turns small enough
      e =
    let text = codes "Failed to initialise WinSock" in
    let (r, is) =
      result _ (main platform process_id fuel status unread turns)
        (main-returns platform process_id fuel status unread turns enough e) in
    elim (Bool-cases (status == 0)) [
      | inl started ↦ (
        r.0,
        r.1,
        record { calls = wsa_cleanup ∷ wsa_startup (make_word 2 2) status ∷ []; messages = [] },
        none,
        rw (is, started) refl,
        rw (started) refl,
        ground (arith, started),
        (refl, refl),
      )
      | inr failed ↦
          let made = winsock_error_code system location text status [] in
          (
            1,
            (ended platform process_id 1 fresh).1,
            record { calls = wsa_startup (make_word 2 2) status ∷ []; messages = made.1 },
            some (made.0),
            rw (startup_failed platform process_id fuel status unread turns failed, failed) refl,
            rw (failed) refl,
            (
              ground (arith, failed),
              refl,
              (errors-code_in system location text [] status [] small).2,
            ),
            (errors-IsReleased system location text [] status []).2,
          )
    ]
