-- ===== src/Sockets/Reporting.antt =====
-- The exception of Connect in src/WFPController/WinSock/wfpcontroller.winsock.socket.cpp when no address
-- could be connected to: its message takes ConvertString, which may throw one of its own.
use basic_windows_drivers.Base.{
  ℕ, ◌<◌, ◌^◌, ◌≡◌, refl, List, [], ◌∷◌, ◌++◌, if◌then◌else◌, ◌==◌, ==_ne, ◌∙◌, ap, length, suc,
  arith,
}
use basic_windows_drivers.Strings.Text.{Text}
use basic_windows_drivers.Strings.Converting as Converting
use basic_windows_drivers.Strings.Converting.{Encoder, convert_to_narrow, convert_to_narrow-failed}
use basic_windows_drivers.Errors.Format.{codes, dword_text, SourceLocation}
use basic_windows_drivers.Errors.Translate.{System, Call, M}
use basic_windows_drivers.Errors.Classes.{Error, winsock_error, win32_error_code}
use basic_windows_drivers.Errors.Released.{IsReleased, errors-IsReleased}
use basic_windows_drivers.Errors.Reading.{Says, errors-code_in}

pub data Exception : Type 0 where
  win32 winsock : Error → Exception

-- The messages of ConvertString's two throws.
unfoldable pub conversion_message : ℕ → Text
conversion_message call =
    if call == 1
    then codes "WideCharToMultiByte() [1] failed"
    else codes "WideCharToMultiByte() [2] failed"

-- The exception, by what becomes of the host: the places of ConvertString and of Connect, and what
-- GetLastError answers in ConvertString.
unfoldable pub report :
    System → SourceLocation → SourceLocation → ℕ → ℕ → Converting.Conversion → M Exception
report system in_convert in_connect last_error port_number (Converting.converted text) w =
    let error_msg =
      codes "Failed connecting to server " ++ (text ++ (codes ":" ++ dword_text port_number)) in
    (winsock (winsock_error in_connect error_msg), w)
report system in_convert in_connect last_error port_number (Converting.failed call) w =
    let (error, w) = win32_error_code system in_convert (conversion_message call) last_error w in
    (win32 error, w)

unfoldable pub failed_connecting :
    System → Encoder → SourceLocation → SourceLocation → ℕ → Text → ℕ → M Exception
failed_connecting system encoder in_convert in_connect last_error host port_number =
    report system in_convert in_connect last_error port_number (convert_to_narrow encoder host)

refused :
    (encoder : Encoder) (decode : Text → Text) (c : ℕ) (host : Text)
    → Converting.IsDocumented encoder decode
    → convert_to_narrow encoder (c ∷ host) ≡ Converting.failed 1
refused encoder decode c host documented =
    convert_to_narrow-failed encoder decode (c ∷ host) documented
    ∙ rw (==_ne (suc (length host)) 0 (omega arith)) refl

-- Where WideCharToMultiByte refuses flags as documented, and the host is not empty, the exception is not
-- WinSockError but the Win32Error of ConvertString. It says that the first call failed, with the code of
-- GetLastError, and making it leaves no module loaded and no buffer allocated that was not before.
pub failed_connecting_lem :
    (system : System) (encoder : Encoder) (decode : Text → Text)
    (in_convert in_connect : SourceLocation) (last_error : ℕ) (c : ℕ) (host : Text)
    (port_number : ℕ) (w : List Call)
    → Converting.IsDocumented encoder decode
    → last_error < 2 ^ 32
    → (e : Error) × (w' : List Call) × (failed_connecting system encoder in_convert in_connect
          last_error
          (c ∷ host)
          port_number
          w
        ≡ (win32 e, w'))
      × Says (codes "WideCharToMultiByte() [1] failed") last_error (codes "Win32") e
      × IsReleased w w'
unfolding failed_connecting conversion_message report
failed_connecting_lem system encoder decode in_convert in_connect last_error c host port_number w
      documented small =
    let message = codes "WideCharToMultiByte() [1] failed" in
    let made = win32_error_code system in_convert message last_error w in
    (
      made.0,
      made.1,
      ap (λ r. report system in_convert in_connect last_error port_number r w)
          (refused encoder decode c host documented),
      (errors-code_in system in_convert message [] last_error w small).0,
      (errors-IsReleased system in_convert message [] last_error w).0,
    )
