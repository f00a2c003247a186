-- ===== src/Errors/Examples.antt =====
-- The theorems on the controller's exceptions at a system that answers one message.
use basic_windows_drivers.Base.{◌≡◌, refl, ◌==◌, if◌then◌else◌, [], ◌∷◌, arith}
use basic_windows_drivers.Errors.Format.{
  codes, digit, hex_digits, hex, decimal, dword_text, place, SourceLocation,
  format_error_message_code,
}
use basic_windows_drivers.Errors.Translate.{
  StringType, System, until_null, erase_if, format_code, translate_error_code_in,
  translate_error_code,
}
use basic_windows_drivers.Errors.Classes.{
  what, win32_error_code, win32_error_module, winsock_error_code, wfp_error_code,
}
use basic_windows_drivers.Errors.Released.{IsReleased, errors-IsReleased}
use basic_windows_drivers.Errors.Reading.{Says, errors-code_in}
use basic_windows_drivers.Errors.Lines.{IsOneLine, translate_error_code_in-IsOneLine}

-- Module 7 is loaded, code 5 has a message with a line break in buffer 9, and others have none.
abbrev pub one_message : System
one_message = record {
  load_library_w = λ w name. 7;
  format_message_buffer = λ w type flags handle code. if code == 5 then 9 else 0;
  memory = λ w address. 78 ∷ 111 ∷ 46 ∷ 13 ∷ 10 ∷ 0 ∷ 1 ∷ [];
  last_error = λ w. 317;
  function_signature = λ type. 70 ∷ [];
}

abbrev pub here : SourceLocation
here = record { function_name = 102 ∷ []; file_name = 109 ∷ []; line = 12; column = 3 }

what_text :
    what (winsock_error_code one_message here (codes "Receive() failed") 5 []).0
    ≡ codes "Receive() failed: WinSock error 0X00000005 (No.) at f() in m:12:3"
unfolding winsock_error_code translate_error_code_in format_code format_error_message_code codes hex
    hex_digits digit place dword_text decimal until_null erase_if
what_text = refl

no_message_text :
    (translate_error_code one_message StringType.narrow 4294967295 []).0
    ≡ codes "F: FormatMessageA() failed on code 4294967295 with error 317"
unfolding translate_error_code translate_error_code_in format_code codes digit dword_text decimal
no_message_text = refl

errors-IsReleased_example :
    IsReleased [] (win32_error_code one_message here (109 ∷ []) 5 []).1
    × IsReleased [] (win32_error_module one_message here (109 ∷ []) 5 (110 ∷ []) []).1
    × IsReleased [] (winsock_error_code one_message here (109 ∷ []) 5 []).1
    × IsReleased [] (wfp_error_code one_message here (109 ∷ []) 5 []).1
errors-IsReleased_example = errors-IsReleased one_message here (109 ∷ []) (110 ∷ []) 5 []

errors-code_in_example :
    Says
      (109 ∷ [])
      10035
      (codes "WinSock")
      (winsock_error_code one_message here (109 ∷ []) 10035 []).0
errors-code_in_example =
    (errors-code_in one_message here (109 ∷ []) (110 ∷ []) 10035 [] (omega arith)).2

translate_error_code_in-IsOneLine_example :
    IsOneLine (translate_error_code_in one_message StringType.wide 5 (110 ∷ []) []).0
translate_error_code_in-IsOneLine_example =
    translate_error_code_in-IsOneLine one_message StringType.wide 5 (110 ∷ []) [] (refl, tt)
