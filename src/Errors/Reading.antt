-- ===== src/Errors/Reading.antt =====
-- What can be read back from the messages of the controller's exceptions.
use basic_windows_drivers.Base.{
  ℕ, zero, suc, ◌+◌, ◌-◌, ◌*◌, ◌/◌, ◌%◌, ◌^◌, ◌<◌, ◌≡◌, refl, ◌∙◌, ap, List, [], ◌∷◌, ◌++◌, length,
  take, drop, if◌then◌else◌, ltb, length-append, subst, arith,
}
use basic_windows_drivers.Strings.Text.{Text}
use basic_windows_drivers.Errors.Format.{
  codes, digit, hex_digits, hex, place, SourceLocation, format_error_message_code,
}
use basic_windows_drivers.Errors.Translate.{System, Call}
use basic_windows_drivers.Errors.Classes.{
  Error, get_error_code, what, win32_error_code, win32_error_module, winsock_error_code,
  wfp_error_code,
}

-- The value of a hexadecimal digit, and of several after a number.
unfoldable pub hex_value : ℕ → ℕ
hex_value c = if ltb c 58 then c - 48 else c - 55

unfoldable pub read_hex : ℕ → Text → ℕ
read_hex n [] = n
read_hex n (c ∷ s) = read_hex (n * 16 + hex_value c) s

-- The number that the eight digits of a message say: after the text that was given, ": ", the name of the
-- class and " error 0X".
unfoldable pub code_in : Text → Text → Text → ℕ
code_in error_type message s =
    read_hex 0 (take 8 (drop 9 (drop (length error_type) (drop 2 (drop (length message) s)))))

hex_value-digit : (d : ℕ) → d < 16 → hex_value (digit d) ≡ d
unfolding hex_value digit
hex_value-digit d h = ground arith

read_hex-append : (n : ℕ) (s t : Text) → read_hex n (s ++ t) ≡ read_hex (read_hex n s) t
unfolding read_hex
read_hex-append n [] t = refl
read_hex-append n (c ∷ s) t = read_hex-append (n * 16 + hex_value c) s t

length-hex_digits : (count n : ℕ) → length (hex_digits count n) ≡ count
unfolding hex_digits
length-hex_digits zero n = refl
length-hex_digits (suc count) n = omega (
  arith,
  length-append (hex_digits count (n / 16)) (digit (n % 16) ∷ []),
  length-hex_digits count (n / 16),
)

read_hex-hex_digits : (count n : ℕ) → n < 16 ^ count → read_hex 0 (hex_digits count n) ≡ n
unfolding hex_digits read_hex
read_hex-hex_digits zero n h = omega arith
read_hex-hex_digits (suc count) n h =
    read_hex-append 0 (hex_digits count (n / 16)) (digit (n % 16) ∷ [])
    ∙ omega (
      arith,
      read_hex-hex_digits count (n / 16) (omega arith),
      hex_value-digit (n % 16) (omega arith),
    )

drop-append : (s t : Text) → drop (length s) (s ++ t) ≡ t
drop-append [] t = refl
drop-append (c ∷ s) t = drop-append s t

take-append : (s t : Text) → take (length s) (s ++ t) ≡ s
take-append [] t = refl
take-append (c ∷ s) t = ap (◌∷◌ c) (take-append s t)

take_digits :
    (count n : ℕ) (rest : Text) → take count (hex_digits count n ++ rest) ≡ hex_digits count n
take_digits count n rest =
    subst (λ k. take k (hex_digits count n ++ rest) ≡ hex_digits count n)
      (length-hex_digits count n) (take-append (hex_digits count n) rest)

-- The digits stand where they are looked for.
code_in-format :
    (error_type message translated : Text) (location : SourceLocation) (n : ℕ)
    → n < 2 ^ 32
    → code_in error_type message
        (format_error_message_code error_type location message n translated)
      ≡ n
unfolding code_in format_error_message_code hex codes
code_in-format error_type message translated location n h =
    let rest = codes " (" ++ (translated ++ (codes ")" ++ place location)) in
    let tail = codes " error " ++ (hex n ++ rest) in
    rw
      (
        drop-append message (codes ": " ++ (error_type ++ tail)),
        drop-append error_type tail,
        take_digits 8 n rest,
      )
      (read_hex-hex_digits 8 n (omega arith))

-- GetErrorCode and the digits of what() are this code.
abbrev pub Says : Text → ℕ → Text → Error → Type 0
Says message error_code error_type e =
    (get_error_code e ≡ error_code) × (code_in error_type message (what e) ≡ error_code)

module _ (system : System) where
  -- For an exception with an error code below 2 ^ 32, of any of the three classes, with or without a
  -- module's name, whatever the system answers: GetErrorCode gives the code that it was made with, and the
  -- eight hexadecimal digits in what() are that code.
  pub errors-code_in :
      (location : SourceLocation) (message module_name : Text) (error_code : ℕ) (w : List Call)
      → error_code < 2 ^ 32
      → Says message error_code
          (codes "Win32")
          (win32_error_code system location message error_code w).0
        × Says message error_code
            (codes "Win32")
            (win32_error_module system location message error_code module_name w).0
        × Says message error_code
            (codes "WinSock")
            (winsock_error_code system location message error_code w).0
        × Says message error_code
            (codes "WFP")
            (wfp_error_code system location message error_code w).0
  unfolding win32_error_code win32_error_module winsock_error_code wfp_error_code
  errors-code_in location message module_name error_code w small = (
    (refl, code_in-format (codes "Win32") message _ location error_code small),
    (refl, code_in-format (codes "Win32") message _ location error_code small),
    (refl, code_in-format (codes "WinSock") message _ location error_code small),
    (refl, code_in-format (codes "WFP") message _ location error_code small),
  )
