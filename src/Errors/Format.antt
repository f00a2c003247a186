-- ===== src/Errors/Format.antt =====
-- FormatErrorMessage of src/WFPController/Error/wfpcontroller.error.functions.cpp, with the replacement
-- fields of std::format that it uses. A text is the list of its characters' codes.
use Prim.Native.Char.{code}
use Prim.Native.String.{String}
use basic_windows_drivers.Base.{ℕ, zero, suc, ◌+◌, ◌/◌, ◌%◌, [], ◌∷◌, ◌++◌, if◌then◌else◌, ltb}
use basic_windows_drivers.Strings.Text.{Text}

-- A literal of the source.
unfoldable pub codes : String → Text
codes String.[] = []
codes (String.◌∷◌ c s) = code c ∷ codes s

-- A digit, with capital letters from ten on.
unfoldable pub digit : ℕ → ℕ
digit d = if ltb d 10 then 48 + d else 55 + d

-- The last `count` hexadecimal digits of a number.
unfoldable pub hex_digits : ℕ → ℕ → Text
hex_digits zero n = []
hex_digits (suc count) n = hex_digits count (n / 16) ++ (digit (n % 16) ∷ [])

-- `{:#010X}` of a DWORD: ten characters, the prefix 0X among them.
unfoldable pub hex : ℕ → Text
hex n = codes "0X" ++ hex_digits 8 n

-- `{}` of an unsigned number. One unit of fuel gives one digit.
unfoldable pub decimal : ℕ → ℕ → Text
decimal zero n = []
decimal (suc fuel) n =
    let before = decimal fuel (n / 10) in
    if ltb n 10 then digit n ∷ [] else before ++ (digit (n % 10) ∷ [])

-- A 32-bit number has ten digits at most.
unfoldable pub dword_text : ℕ → Text
dword_text n = decimal 10 n

-- std::source_location.
pub record SourceLocation : Type 0 where
  pub function_name : Text
  pub file_name : Text
  pub line : ℕ
  pub column : ℕ

-- What the two messages end with.
unfoldable pub place : SourceLocation → Text
place location =
    codes " at "
    ++ (location.function_name
        ++ (codes "() in "
            ++ (location.file_name
                ++ (codes ":"
                    ++ (dword_text location.line ++ (codes ":" ++ dword_text location.column))))))

unfoldable pub format_error_message : Text → SourceLocation → Text → Text
format_error_message error_type location message =
    message ++ (codes ": " ++ (error_type ++ (codes " error" ++ place location)))

-- The overload with an error code.
unfoldable pub format_error_message_code : Text → SourceLocation → Text → ℕ → Text → Text
format_error_message_code error_type location message error_code translated_error =
    message
    ++ (codes ": "
        ++ (error_type
            ++ (codes " error "
                ++ (hex error_code
                    ++ (codes " (" ++ (translated_error ++ (codes ")" ++ place location)))))))
