-- ===== src/Errors/Classes.antt =====
-- Win32Error of src/WFPController/Error/wfpcontroller.error.win32error.cpp, WinSockError and WFPError.
use basic_windows_drivers.Base.{ℕ, []}
use basic_windows_drivers.Strings.Text.{Text}
use basic_windows_drivers.Errors.Format.{
  codes, SourceLocation, format_error_message, format_error_message_code,
}
use basic_windows_drivers.Errors.Translate.{
  System, M, narrow, translate_error_code, translate_error_code_in,
}

-- The message of std::runtime_error, m_errorCode and m_errorString, which the three classes have.
pub record Error : Type 0 where
  pub runtime_error : Text
  pub error_code : ℕ
  pub error_string : Text

abbrev pub get_error_code : Error → ℕ
get_error_code e = e.error_code

abbrev pub what : Error → Text
what e = e.error_string

-- Win32Error(location, msg), WinSockError(location, message) and WFPError(location, message).
unfoldable pub win32_error : SourceLocation → Text → Error
win32_error location msg = record {
  runtime_error = msg;
  error_code = 0;
  error_string = format_error_message (codes "Win32") location msg;
}

unfoldable pub winsock_error : SourceLocation → Text → Error
winsock_error location message = record {
  runtime_error = [];
  error_code = 0;
  error_string = format_error_message (codes "WinSock") location message;
}

unfoldable pub wfp_error : SourceLocation → Text → Error
wfp_error location message = record {
  runtime_error = [];
  error_code = 0;
  error_string = format_error_message (codes "WFP") location message;
}

module _ (system : System) where
  -- The constructors with an error code.
  unfoldable pub win32_error_code : SourceLocation → Text → ℕ → M Error
  win32_error_code location msg error_code w =
      let (error_string, w) = translate_error_code system narrow error_code w in
      (
        record {
          runtime_error = msg;
          error_code = error_code;
          error_string =
              format_error_message_code (codes "Win32") location msg error_code error_string;
        },
        w,
      )

  -- And with a module's name.
  unfoldable pub win32_error_module : SourceLocation → Text → ℕ → Text → M Error
  win32_error_module location msg error_code module_name w =
      let (error_string, w) = translate_error_code_in system narrow error_code module_name w in
      (
        record {
          runtime_error = msg;
          error_code = error_code;
          error_string =
              format_error_message_code (codes "Win32") location msg error_code error_string;
        },
        w,
      )

  unfoldable pub winsock_error_code : SourceLocation → Text → ℕ → M Error
  winsock_error_code location message error_code w =
      let (error_string, w) =
        translate_error_code_in system narrow error_code (codes "Ws2_32.dll") w in
      (
        record {
          runtime_error = [];
          error_code = error_code;
          error_string =
              format_error_message_code (codes "WinSock") location message error_code error_string;
        },
        w,
      )

  unfoldable pub wfp_error_code : SourceLocation → Text → ℕ → M Error
  wfp_error_code location message error_code w =
      let (error_string, w) =
        translate_error_code_in system narrow error_code (codes "Fwpuclnt.dll") w in
      (
        record {
          runtime_error = [];
          error_code = error_code;
          error_string =
              format_error_message_code (codes "WFP") location message error_code error_string;
        },
        w,
      )
