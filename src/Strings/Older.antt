-- ===== src/Strings/Older.antt =====
-- ConvertWStringToStringOld, ConvertStringToWStringOld and DoCaseInsensitiveMatch of
-- src/WFPController/Strings/wfpcontroller.strings.cpp.
use basic_windows_drivers.Base.{
  ℕ, suc, ◌+◌, ◌-◌, ◌&&◌, Bool, true, false, not, [], ◌∷◌, ◌++◌, map, Option, none, some,
  if◌then◌else◌, ◌==◌, length, take, is_some,
}
use basic_windows_drivers.Strings.Text.{Text}
use basic_windows_drivers.Strings.Converting.{zeros, overwrite}

-- The text, one of the two exceptions, or no defined behaviour.
pub data Conversion : Type 0 where
  converted : Text → Conversion
  unexpected_null failed undefined : Conversion

-- How the loop over the text ends: with the exception, with an overflow of its index, which is an int, or
-- with nullTerminatorPos, where `none` stands for npos.
pub data Scan : Type 0 where
  threw overflowed : Scan
  scanned : Option ℕ → Scan

abbrev pub int_max : ℕ
int_max = 2147483647

-- The loop from position `i` on.
unfoldable pub scan : ℕ → ℕ → Text → Option ℕ → Scan
scan size i [] null_terminator_pos = scanned null_terminator_pos
scan size i (c ∷ s) null_terminator_pos =
    let found = scan size (suc i) s (some i) in
    let other = scan size (suc i) s null_terminator_pos in
    if c == 0 && not (i == size - 1)
    then threw
    else if i == int_max
    then overflowed
    else if c == 0
    then found
    else other

-- std::string::pop_back.
abbrev pub pop_back : Text → Text
pop_back s = take (length s - 1) s

-- wcsrtombs_s or mbsrtowcs_s: the source, up to whatever ends it, the size of the destination, and the
-- most characters that are stored; the error, and what is written.
abbrev pub Converter : Type 0
Converter = Text → ℕ → ℕ → ℕ × Text

-- From the call of the converter to the end. The source is the text with the null behind it.
unfoldable pub convert_into : Converter → Text → ℕ → Conversion
convert_into convert source reserved_size =
    let (error, written) = convert source reserved_size reserved_size in
    let dest = pop_back (overwrite (zeros reserved_size) written) in
    if error == 0 then converted dest else failed

unfoldable pub convert_scanned : Converter → Text → Scan → Conversion
convert_scanned convert s threw = unexpected_null
convert_scanned convert s overflowed = undefined
convert_scanned convert s (scanned null_terminator_pos) =
    convert_into convert (s ++ (0 ∷ []))
      (if is_some null_terminator_pos then length s else length s + 1)

-- The body that the two functions have.
unfoldable pub convert_string_old : Converter → Text → Conversion
unfolding convert_scanned
convert_string_old convert [] = converted []
convert_string_old convert (c ∷ s) =
    convert_scanned convert (c ∷ s) (scan (length (c ∷ s)) 0 (c ∷ s) none)

-- `==` of two strings.
unfoldable pub same_text : Text → Text → Bool
same_text [] [] = true
same_text (c ∷ s) (d ∷ t) = (c == d) && same_text s t
same_text _ _ = false

-- With `::tolower`.
unfoldable pub do_case_insensitive_match : (ℕ → ℕ) → Text → Text → Bool
do_case_insensitive_match tolower str_1 str_2 = same_text (map tolower str_1) (map tolower str_2)
