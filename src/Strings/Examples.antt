-- ===== src/Strings/Examples.antt =====
-- The theorems on src/WFPController/Strings at concrete inputs.
use basic_windows_drivers.Base.{
  Bool, true, ◌&&◌, Option, none, Bool-cases, inl, inr, ◌||◌, ◌==◌, ==_ne, ap, ltb, ◌≢◌, All, ◌++◌,
  if◌then◌else◌, length, ◌≡◌, refl, List, [], ◌∷◌, some, arith,
}
use basic_windows_drivers.Strings.Text.{Text, starts_with, find, find_at}
use basic_windows_drivers.Strings.Split.{tokenise_loop, tokenise_string, replace_loop, replace}
use basic_windows_drivers.Strings.Pieces.{join}
use basic_windows_drivers.Strings.Tokens.{tokenise_string-join}
use basic_windows_drivers.Strings.Replacing.{replace-tokenise_string}
use basic_windows_drivers.Strings.Divergence.{empty_delimiter_diverges}
use basic_windows_drivers.Strings.Converting.{
  Encoder, IsDocumented, wc_err_invalid_chars, converted, failed, convert_to_narrow,
  convert_to_wide, convert_string,
}
use basic_windows_drivers.Strings.Older.{Converter, unexpected_null, convert_string_old}
use basic_windows_drivers.Strings.Terminators
use basic_windows_drivers.Strings.Terminators.{old_result, convert_string_old-nulls}

-- "a,b," and ",".
abbrev csv : Text
csv = 97 ∷ 44 ∷ 98 ∷ 44 ∷ []

csv_tokens : tokenise_string 5 csv (44 ∷ []) ≡ some ((97 ∷ []) ∷ (98 ∷ []) ∷ [] ∷ [])
unfolding tokenise_string tokenise_loop find_at find starts_with
csv_tokens = refl

csv_semicolons : replace 5 csv (44 ∷ []) (59 ∷ 32 ∷ []) ≡ some (97 ∷ 59 ∷ 32 ∷ 98 ∷ 59 ∷ 32 ∷ [])
unfolding replace replace_loop find_at find starts_with
csv_semicolons = refl

tokenise_string-join_example :
    (tokens : List Text) × (tokenise_string 5 csv (44 ∷ []) ≡ some tokens)
tokenise_string-join_example =
    let (tokens, runs, pieces, joined, free) = tokenise_string-join 44 [] 5 csv (omega arith) in
    (tokens, runs)

replace-tokenise_string_example :
    (tokens : List Text) × (tokenise_string 5 csv (44 ∷ []) ≡ some tokens)
    × (replace 5 csv (44 ∷ []) (59 ∷ []) ≡ some (join (59 ∷ []) tokens))
replace-tokenise_string_example = replace-tokenise_string 44 [] 5 csv (59 ∷ []) (omega arith)

-- A system whose characters are those of ASCII.
abbrev pub ascii : Encoder
ascii = record {
  wide_char_to_multi_byte = λ page flags s count size.
      if flags == 0 || flags == wc_err_invalid_chars then (length s, s) else (0, []);
  multi_byte_to_wide_char = λ page flags s count size. (length s, s);
}

pub ascii-IsDocumented : IsDocumented ascii (λ s. s)
ascii-IsDocumented = record {
  refuses_flags = λ flags s count size n m. ground arith;
  measures = λ s short. refl;
  decodes = λ s short. refl;
}

convert_string_example :
    (convert_to_narrow ascii csv ≡ failed 1) × (convert_to_wide ascii csv ≡ converted csv)
convert_string_example =
    convert_string ascii (λ s. s) csv 97 (44 ∷ 98 ∷ 44 ∷ []) ascii-IsDocumented (omega arith)
      (omega arith) (omega arith)

-- A converter of ASCII.
unfoldable up_to_null : Text → Text
up_to_null [] = []
up_to_null (c ∷ s) = let rest = up_to_null s in if c == 0 then [] else c ∷ rest

up_to_null-free : (s rest : Text) → All (λ c. c ≢ 0) s → up_to_null (s ++ (0 ∷ rest)) ≡ s
unfolding up_to_null
up_to_null-free [] rest free = refl
up_to_null-free (c ∷ s) rest (n, free) = rw (==_ne c 0 n) (ap (◌∷◌ c) (up_to_null-free s rest free))

-- Whether all characters are those of ASCII.
abbrev is_ascii : Text → Bool
is_ascii [] = true
is_ascii (c ∷ s) = ltb c 128 && is_ascii s

abbrev ascii_encoding : Text → Option Text
ascii_encoding s = if is_ascii s then some s else none

abbrev ascii_converter : Converter
ascii_converter source size count =
    if is_ascii (up_to_null source)
    then (if ltb (length (up_to_null source)) size
        then (0, up_to_null source ++ (0 ∷ []))
        else (34, 0 ∷ []))
    else (42, 0 ∷ [])

ascii_text : (s t : Text) → ascii_encoding s ≡ some t → (is_ascii s ≡ true) × (s ≡ t)
ascii_text s t is = elim (Bool-cases (is_ascii s)) [
  | inl yes_ascii ↦ (yes_ascii, ground arith)
  | inr no_ascii ↦ absurd (ground arith)
]

ascii_converter-IsDocumented : Terminators.IsDocumented ascii_converter ascii_encoding
ascii_converter-IsDocumented = record {
  fits = λ s t rest size free is short.
      let (all, same) = ascii_text s t is in rw (up_to_null-free s rest free, all) (ground arith);
  too_small = λ s t rest size free is long.
      let (all, same) = ascii_text s t is in rw (up_to_null-free s rest free, all) (ground arith);
  unencodable = λ s rest size free is. rw (up_to_null-free s rest free) (ground arith);
}

convert_string_old-nulls_example :
    (convert_string_old ascii_converter (97 ∷ 98 ∷ [])
      ≡ old_result (some (97 ∷ 98 ∷ [])) (97 ∷ 98 ∷ []))
    × (convert_string_old ascii_converter (97 ∷ 98 ∷ 0 ∷ [])
        ≡ old_result (some (97 ∷ 98 ∷ [])) (97 ∷ 98 ∷ []))
    × (convert_string_old ascii_converter (97 ∷ 0 ∷ 98 ∷ []) ≡ unexpected_null)
convert_string_old-nulls_example =
    convert_string_old-nulls ascii_converter ascii_encoding 97 (98 ∷ []) (97 ∷ []) 98 []
      ascii_converter-IsDocumented (omega arith, (omega arith, tt)) (omega arith) (omega arith)

empty_delimiter_diverges_example : replace 9 csv [] (59 ∷ []) ≡ none
empty_delimiter_diverges_example = (empty_delimiter_diverges 9 csv (59 ∷ [])).1
