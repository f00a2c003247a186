-- ===== src/Errors/Lines.antt =====
-- The line breaks of a translated error code.
use basic_windows_drivers.Base.{
  ℕ, zero, suc, ◌/◌, ◌%◌, ◌≡◌, refl, ◌||◌, Bool, false, List, [], ◌∷◌, ◌++◌, All, ◌==◌, ltb,
  Bool-cases, inl, inr, arith,
}
use basic_windows_drivers.Strings.Text.{Text}
use basic_windows_drivers.Errors.Format.{codes, digit, decimal, dword_text}
use basic_windows_drivers.Errors.Translate.{
  StringType, Call, load_library, System, is_line_break, erase_if, format_code,
  translate_error_code_in,
}

abbrev pub IsOneLine : Text → Type 0
IsOneLine s = All (λ c. is_line_break c ≡ false) s

append-IsOneLine : (s t : Text) → IsOneLine s → IsOneLine t → IsOneLine (s ++ t)
append-IsOneLine [] t o o' = o'
append-IsOneLine (c ∷ s) t (k, o) o' = (k, append-IsOneLine s t o o')

erase_if-IsOneLine : (s : Text) → IsOneLine (erase_if is_line_break s)
unfolding erase_if
erase_if-IsOneLine [] = tt
erase_if-IsOneLine (c ∷ s) = elim (Bool-cases (is_line_break c)) [
  | inl is ↦ rw (is) (erase_if-IsOneLine s)
  | inr is ↦ rw (is) (is, erase_if-IsOneLine s)
]

decimal-IsOneLine : (fuel n : ℕ) → IsOneLine (decimal fuel n)
unfolding decimal digit
decimal-IsOneLine zero n = tt
decimal-IsOneLine (suc fuel) n = elim (Bool-cases (ltb n 10)) [
  | inl is ↦ rw (is) (ground arith, tt)
  | inr is ↦ rw (is) (
      append-IsOneLine (decimal fuel (n / 10)) (digit (n % 10) ∷ [])
        (decimal-IsOneLine fuel (n / 10)) (ground arith, tt))
]

-- A test of a literal.
abbrev has_line_break : Text → Bool
has_line_break [] = false
has_line_break (c ∷ s) = is_line_break c || has_line_break s

literal-IsOneLine : (s : Text) → has_line_break s ≡ false → IsOneLine s
literal-IsOneLine [] e = tt
literal-IsOneLine (c ∷ s) e = (ground arith, literal-IsOneLine s (ground arith))

-- The text that stands for a message when there is none.
failed-IsOneLine :
    (signature : Text) (error_code error : ℕ)
    → IsOneLine signature
    → IsOneLine (
        signature
        ++ (codes ": FormatMessageA() failed on code "
            ++ (dword_text error_code ++ (codes " with error " ++ dword_text error))))
unfolding dword_text codes
failed-IsOneLine signature error_code error o = append-IsOneLine signature _ o (
    append-IsOneLine (codes ": FormatMessageA() failed on code ") _
      (literal-IsOneLine (codes ": FormatMessageA() failed on code ") refl)
      (append-IsOneLine (dword_text error_code) _ (decimal-IsOneLine 10 error_code) (
        append-IsOneLine (codes " with error ") _ (literal-IsOneLine (codes " with error ") refl)
          (decimal-IsOneLine 10 error))))

module _ (system : System) where
  format_code-IsOneLine :
      (type : StringType) (error_code flags handle : ℕ) (w : List Call)
      → IsOneLine (system.function_signature type)
      → IsOneLine (format_code system type error_code flags handle w).0
  unfolding format_code
  format_code-IsOneLine type error_code flags handle w o =
      elim (Bool-cases (system.format_message_buffer w type flags handle error_code == 0)) [
        | inl failed ↦
            rw (failed) (failed-IsOneLine (system.function_signature type) error_code _ o)
        | inr got ↦ rw (got) (erase_if-IsOneLine _)
      ]

  -- Where the compiler's signature of FormatCode has no line break, the text of an error code has none,
  -- for a narrow or a wide string, with or without a module's name, whatever the system answers.
  pub translate_error_code_in-IsOneLine :
      (type : StringType) (error_code : ℕ) (name : Text) (w : List Call)
      → IsOneLine (system.function_signature type)
      → IsOneLine (translate_error_code_in system type error_code name w).0
  unfolding translate_error_code_in
  translate_error_code_in-IsOneLine type error_code [] w o =
      format_code-IsOneLine type error_code 0x1300 0 w o
  translate_error_code_in-IsOneLine type error_code (c ∷ name) w o =
      let handle = system.load_library_w w (c ∷ name) in
      let w' = load_library (c ∷ name) handle ∷ w in
      elim (Bool-cases (handle == 0)) [
        | inl failed ↦ rw (failed) (format_code-IsOneLine type error_code 0x1300 0 w' o)
        | inr got ↦ rw (got) (format_code-IsOneLine type error_code 0x1b00 handle w' o)
      ]
