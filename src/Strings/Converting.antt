-- ===== src/Strings/Converting.antt =====
-- ConvertString of src/WFPController/Strings/wfpcontroller.strings.cpp, between UTF-16 and UTF-8. A text is
-- the list of its code units.
use basic_windows_drivers.Base.{
  ==_ne, ℕ, zero, suc, ◌%◌, ◌^◌, ◌<◌, ◌≡◌, ◌≢◌, refl, [], ◌∷◌, ◌++◌, if◌then◌else◌, ◌==◌, length,
  drop, append-nil, arith,
}
use basic_windows_drivers.Strings.Text.{Text}

-- WideCharToMultiByte and MultiByteToWideChar: the code page, the flags, the text, its length as the bits
-- of an int and the size of the buffer, 0 to ask for the size that it needs; the result, 0 on failure, and
-- what is written to the buffer.
pub record Encoder : Type 0 where
  pub wide_char_to_multi_byte : ℕ → ℕ → Text → ℕ → ℕ → ℕ × Text
  pub multi_byte_to_wide_char : ℕ → ℕ → Text → ℕ → ℕ → ℕ × Text

-- CP_UTF8, WC_NO_BEST_FIT_CHARS and WC_ERR_INVALID_CHARS.
abbrev pub cp_utf8 : ℕ
cp_utf8 = 65001

abbrev pub wc_no_best_fit_chars : ℕ
wc_no_best_fit_chars = 0x400

abbrev pub wc_err_invalid_chars : ℕ
wc_err_invalid_chars = 0x80

-- What is documented of them. For UTF-8 the flags of the first are 0 or WC_ERR_INVALID_CHARS, or it fails;
-- the second, without flags, decodes a text whose length it is given, into a buffer of the size it asked
-- for.
pub record IsDocumented (encoder : Encoder) (decode : Text → Text) : Type 0 where
  pub refuses_flags :
      (flags : ℕ) (s : Text) (count size : ℕ)
      → flags ≢ 0
      → flags ≢ wc_err_invalid_chars
      → (encoder.wide_char_to_multi_byte cp_utf8 flags s count size).0 ≡ 0
  pub measures :
      (s : Text)
      → length s < 2 ^ 31
      → (encoder.multi_byte_to_wide_char cp_utf8 0 s (length s) 0).0 ≡ length (decode s)
  pub decodes :
      (s : Text)
      → length s < 2 ^ 31
      → encoder.multi_byte_to_wide_char cp_utf8 0 s (length s) (length (decode s))
        ≡ (length (decode s), decode s)

-- The text, or Win32Error, from the first or the second call.
pub data Conversion : Type 0 where
  converted : Text → Conversion
  failed : ℕ → Conversion

-- static_cast<int>, as its bits.
abbrev pub to_int : ℕ → ℕ
to_int n = n % 2 ^ 32

unfoldable pub zeros : ℕ → Text
zeros zero = []
zeros (suc n) = 0 ∷ zeros n

-- A buffer after its beginning has been written.
unfoldable pub overwrite : Text → Text → Text
overwrite buffer written = written ++ drop (length written) buffer

-- The two calls, with the first argument of each left to the caller: the size of the buffer.
unfoldable pub convert : (ℕ → ℕ × Text) → Conversion
convert call =
    let (size, unused) = call 0 in
    if size == 0
    then failed 1
    else let (status, written) = call (to_int size) in
      if status == 0 then failed 2 else converted (overwrite (zeros size) written)

-- ConvertString of a wide string.
unfoldable pub convert_to_narrow : Encoder → Text → Conversion
convert_to_narrow encoder [] = converted []
convert_to_narrow encoder (c ∷ s) =
    convert (
      encoder.wide_char_to_multi_byte cp_utf8 wc_no_best_fit_chars (c ∷ s)
        (to_int (length (c ∷ s))))

-- ConvertString of a narrow string.
unfoldable pub convert_to_wide : Encoder → Text → Conversion
convert_to_wide encoder [] = converted []
convert_to_wide encoder (c ∷ s) =
    convert (encoder.multi_byte_to_wide_char cp_utf8 0 (c ∷ s) (to_int (length (c ∷ s))))

to_int_lem : (n : ℕ) → n < 2 ^ 31 → to_int n ≡ n
to_int_lem n small = omega arith

drop-zeros : (n : ℕ) → drop n (zeros n) ≡ []
unfolding zeros
drop-zeros zero = refl
drop-zeros (suc n) = drop-zeros n

-- What becomes of a wide string.
pub convert_to_narrow-failed :
    (encoder : Encoder) (decode : Text → Text) (wide : Text)
    → IsDocumented encoder decode
    → convert_to_narrow encoder wide ≡ (if length wide == 0 then converted [] else failed 1)
unfolding convert_to_narrow convert
convert_to_narrow-failed encoder decode [] documented = refl
convert_to_narrow-failed encoder decode (d ∷ s) documented = rw (
  ==_ne (suc (length s)) 0 (omega arith),
  documented.refuses_flags wc_no_best_fit_chars (d ∷ s) (to_int (length (d ∷ s))) 0 (omega arith)
      (omega arith),
)

-- As documented, no wide string but the empty one can be converted, since the flags are not those of
-- UTF-8, and the first call fails. A narrow string that is shorter than 2^31, and whose decoding is too and
-- is not empty, is converted to its decoding.
pub convert_string :
    (encoder : Encoder) (decode : Text → Text) (wide : Text) (c : ℕ) (narrow : Text)
    → IsDocumented encoder decode
    → length (c ∷ narrow) < 2 ^ 31
    → length (decode (c ∷ narrow)) < 2 ^ 31
    → length (decode (c ∷ narrow)) ≢ 0
    → (convert_to_narrow encoder wide ≡ (if length wide == 0 then converted [] else failed 1))
      × (convert_to_wide encoder (c ∷ narrow) ≡ converted (decode (c ∷ narrow)))
unfolding convert_to_wide convert_to_narrow convert overwrite
convert_string encoder decode wide c narrow documented short short' some_length =
    (convert_to_narrow-failed encoder decode wide documented, to_wide)
  where
    to_wide : convert_to_wide encoder (c ∷ narrow) ≡ converted (decode (c ∷ narrow))
    to_wide = rw (
      to_int_lem (length (c ∷ narrow)) short,
      documented.measures (c ∷ narrow) short,
      to_int_lem (length (decode (c ∷ narrow))) short',
      documented.decodes (c ∷ narrow) short,
      ==_ne (length (decode (c ∷ narrow))) 0 some_length,
      drop-zeros (length (decode (c ∷ narrow))),
      append-nil (decode (c ∷ narrow)),
    )
