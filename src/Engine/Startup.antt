-- ===== src/Engine/Startup.antt =====
-- WinSockInit of src/WFPController/WinSock/wfpcontroller.winsock.winsockinit.cpp, and the scope of main in
-- src/WFPController/main.cpp that holds one.
use basic_windows_drivers.Base.{ℕ, List, [], ◌∷◌, Option, none, some, if◌then◌else◌, ◌==◌, is_some}
use mathlib.Core.Option
use basic_windows_drivers.Errors.Format.{codes, SourceLocation}
use basic_windows_drivers.Errors.Translate as Messages
use basic_windows_drivers.Errors.Classes.{Error, winsock_error_code}
use basic_windows_drivers.Engine.Platform.{Platform}
use basic_windows_drivers.Engine.Controller.{Turn, State, main}

-- WSAStartup, with the version that is asked for and its status, and WSACleanup.
pub data InitCall : Type 0 where
  wsa_startup : ℕ → ℕ → InitCall
  wsa_cleanup : InitCall

-- The calls of WinSock, and those that an exception's message takes.
pub record Setting : Type 0 where
  pub calls : List InitCall
  pub messages : List Messages.Call

-- MAKEWORD, and where Initialize throws.
module _ (system : Messages.System) (make_word : ℕ → ℕ → ℕ) (location : SourceLocation) where
  -- WinSockInit::Initialize, with the exception that it throws.
  unfoldable pub initialize : ℕ → ℕ → ℕ → Setting → Setting × Option Error
  initialize high_version low_version status w =
      let started = record w {
        calls = wsa_startup (make_word high_version low_version) status ∷ w.calls;
      } in
      let (error, messages) =
        winsock_error_code system location (codes "Failed to initialise WinSock") status
          w.messages in
      if status == 0 then (started, none) else (record started { messages = messages }, some error)

  -- The two constructors.
  unfoldable pub winsock_init : ℕ → Setting → Setting × Option Error
  winsock_init status = initialize 2 2 status

  unfoldable pub winsock_init_version : ℕ → ℕ → ℕ → Setting → Setting × Option Error
  winsock_init_version high_version low_version status = initialize high_version low_version status

  -- The destructor.
  unfoldable pub destroy_winsock_init : Setting → Setting
  destroy_winsock_init w = record w { calls = wsa_cleanup ∷ w.calls }

  -- main, with the object that it makes after the engine. One whose constructor throws is not destroyed.
  unfoldable pub program :
      Platform → ℕ → ℕ → ℕ → Turn → List Turn → Option (ℕ × State × Setting × Option Error)
  program platform process_id fuel status unread turns =
      let (w, error) = winsock_init status (record { calls = []; messages = [] }) in
      let w = if is_some error then w else destroy_winsock_init w in
      Option.map (λ (r : ℕ × State). (r.0, r.1, w, error))
        (main platform process_id fuel status unread turns)
