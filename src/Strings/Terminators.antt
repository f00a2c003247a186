-- ===== src/Strings/Terminators.antt =====
-- What the older conversions of src/WFPController/Strings make of nulls.
use basic_windows_drivers.Base.{
  ℕ, zero, suc, ◌+◌, ◌-◌, ◌≤◌, ◌<◌, ◌≡◌, ◌≢◌, refl, ◌∙◌, sym, ap, [], ◌∷◌, ◌++◌, Option, none, some,
  if◌then◌else◌, ==_ne, leb, length, take, drop, All, length-append, append-nil, append_assoc, ap₂,
  Bool-cases, Option-cases, inl, inr, arith,
}
use basic_windows_drivers.Strings.Text.{Text}
use basic_windows_drivers.Strings.Converting.{zeros, overwrite}
use basic_windows_drivers.Strings.Older.{
  Conversion, converted, unexpected_null, failed, threw, scanned, int_max, scan, Converter,
  convert_scanned, convert_string_old, convert_into, pop_back,
}

-- What is documented of the two routines, where `encode` is the encoding of a text, if each of its
-- characters has one, for a destination of `size` characters that may all be stored: they convert up to
-- the first null, and store it too, and fail if the destination is too small or a character has no
-- encoding.
pub record IsDocumented (convert : Converter) (encode : Text → Option Text) : Type 0 where
  pub fits :
      (s t rest : Text) (size : ℕ)
      → All (λ c. c ≢ 0) s
      → encode s ≡ some t
      → length t < size
      → convert (s ++ (0 ∷ rest)) size size ≡ (0, t ++ (0 ∷ []))
  pub too_small :
      (s t rest : Text) (size : ℕ)
      → All (λ c. c ≢ 0) s
      → encode s ≡ some t
      → size ≤ length t
      → (convert (s ++ (0 ∷ rest)) size size).0 ≢ 0
  pub unencodable :
      (s rest : Text) (size : ℕ)
      → All (λ c. c ≢ 0) s
      → encode s ≡ none
      → (convert (s ++ (0 ∷ rest)) size size).0 ≢ 0

-- A text without a null is scanned to its end.
scan-free :
    (size i : ℕ) (s rest : Text) (pos : Option ℕ)
    → All (λ c. c ≢ 0) s
    → i + length s ≤ int_max
    → scan size i (s ++ rest) pos ≡ scan size (i + length s) rest pos
unfolding scan
scan-free size i [] rest pos free short = ap (λ k. scan size k rest pos) (omega arith)
scan-free size i (c ∷ s) rest pos (n, free) short =
    rw (==_ne c 0 n, ==_ne i int_max (omega arith))
      (scan-free size (suc i) s rest pos free (omega arith)
        ∙ ap (λ k. scan size k rest pos) (omega arith))

-- A null that is not the last character ends the scan.
scan-null :
    (size i : ℕ) (s : Text) (c : ℕ) (rest : Text) (pos : Option ℕ)
    → i + length s + 2 + length rest ≡ size
    → size ≤ int_max
    → scan size i (s ++ (0 ∷ c ∷ rest)) pos ≡ threw
unfolding scan
scan-null size i [] c rest pos e short = rw (==_ne i (size - 1) (omega arith)) refl
scan-null size i (d ∷ s) c rest pos e short = ground (
  arith,
  scan-null size (suc i) s c rest (some i) (omega arith) short,
  scan-null size (suc i) s c rest pos (omega arith) short,
)

zeros-suc : (n : ℕ) → zeros (suc n) ≡ zeros n ++ (0 ∷ [])
unfolding zeros
zeros-suc zero = refl
zeros-suc (suc n) = ap (◌∷◌ 0) (zeros-suc n)

length-zeros : (n : ℕ) → length (zeros n) ≡ n
unfolding zeros
length-zeros zero = refl
length-zeros (suc n) = ap suc (length-zeros n)

take-append : (s t : Text) → take (length s) (s ++ t) ≡ s
take-append [] t = refl
take-append (c ∷ s) t = ap (◌∷◌ c) (take-append s t)

drop-zeros : (k n : ℕ) → drop k (zeros n) ≡ zeros (n - k)
unfolding zeros
drop-zeros zero n = ap zeros (omega arith)
drop-zeros (suc k) zero = ap zeros {x = 0} (omega arith)
drop-zeros (suc k) (suc n) = drop-zeros k n ∙ ap zeros (omega arith)

pop_back-last : (s : Text) (c : ℕ) → pop_back (s ++ (c ∷ [])) ≡ s
pop_back-last s c =
    ap (λ k. take k (s ++ (c ∷ []))) (omega (arith, length-append s (c ∷ [])))
    ∙ take-append s (c ∷ [])

-- What is left of the destination when the null and what is behind the text is there.
pop_back-overwrite :
    (s : Text) (n : ℕ)
    → length s ≤ n
    → pop_back (overwrite (zeros (suc n)) (s ++ (0 ∷ []))) ≡ s ++ zeros (n - length s)
unfolding overwrite zeros
pop_back-overwrite s n fits =
    let m = n - length s in
    let rest : drop (length (s ++ (0 ∷ []))) (zeros (suc n)) ≡ zeros m =
      drop-zeros (length (s ++ (0 ∷ []))) (suc n)
      ∙ ap zeros (omega (arith, length-append s (0 ∷ []))) in
    ap (λ t. pop_back ((s ++ (0 ∷ [])) ++ t)) rest
    ∙ ap pop_back (append_assoc s (0 ∷ []) (zeros m))
    ∙ ap (λ t. pop_back (s ++ t)) (zeros-suc m)
    ∙ ap pop_back (sym (append_assoc s (zeros m) (0 ∷ [])))
    ∙ pop_back-last (s ++ zeros m) 0

-- What the conversion of a text without nulls gives.
abbrev pub old_result : Option Text → Text → Conversion
old_result none s = failed
old_result (some t) s =
    if leb (length t) (length s) then converted (t ++ zeros (length s - length t)) else failed

encoded_lem :
    (convert : Converter) (encode : Text → Option Text) (s t rest : Text)
    → IsDocumented convert encode
    → All (λ c. c ≢ 0) s
    → encode s ≡ some t
    → convert_into convert (s ++ (0 ∷ rest)) (suc (length s)) ≡ old_result (some t) s
unfolding convert_into
encoded_lem convert encode s t rest documented free is =
    elim (Bool-cases (leb (length t) (length s))) [
      | inl short ↦
          rw
            (
              short,
              documented.fits s t rest (suc (length s)) free is (ground arith),
              pop_back-overwrite t (length s) (ground arith),
            )
            refl
      | inr long ↦
          rw
            (
              long,
              ==_ne (convert (s ++ (0 ∷ rest)) (suc (length s)) (suc (length s))).0 0
                  (documented.too_small s t rest (suc (length s)) free is (ground arith)),
            )
            refl
    ]

convert_into_lem :
    (convert : Converter) (encode : Text → Option Text) (s rest : Text)
    → IsDocumented convert encode
    → All (λ c. c ≢ 0) s
    → convert_into convert (s ++ (0 ∷ rest)) (suc (length s)) ≡ old_result (encode s) s
unfolding convert_into
convert_into_lem convert encode s rest documented free = elim (Option-cases (encode s)) [
  | inl is ↦
      rw
        (
          is,
          ==_ne (convert (s ++ (0 ∷ rest)) (suc (length s)) (suc (length s))).0 0
              (documented.unencodable s rest (suc (length s)) free is),
        )
        refl
  | inr (t, is) ↦
      encoded_lem convert encode s t rest documented free is ∙ ap (λ o. old_result o s) (sym is)
]

scan-whole :
    (s : Text) → All (λ c. c ≢ 0) s → length s ≤ int_max → scan (length s) 0 s none ≡ scanned none
unfolding scan
scan-whole s free short =
    ap (λ t. scan (length s) 0 t none) (sym (append-nil s))
    ∙ scan-free (length s) 0 s [] none free (omega arith)

scan-terminated :
    (s : Text)
    → All (λ c. c ≢ 0) s
    → length s < int_max
    → scan (length (s ++ (0 ∷ []))) 0 (s ++ (0 ∷ [])) none ≡ scanned (some (length s))
unfolding scan
scan-terminated s free short =
    let size = length (s ++ (0 ∷ [])) in
    scan-free size 0 s (0 ∷ []) none free (omega arith) ∙ ground (arith, length-append s (0 ∷ []))

convert_string_old-refused :
    (convert : Converter) (before : Text) (d : ℕ) (after : Text)
    → length (before ++ (0 ∷ d ∷ after)) ≤ int_max
    → convert_string_old convert (before ++ (0 ∷ d ∷ after)) ≡ unexpected_null
unfolding convert_string_old convert_scanned
convert_string_old-refused convert [] d after short =
    ap (convert_scanned convert (0 ∷ d ∷ after))
      (scan-null (length (0 ∷ d ∷ after)) 0 [] d after none (omega arith) short)
convert_string_old-refused convert (b ∷ before) d after short =
    let s = (b ∷ before) ++ (0 ∷ d ∷ after) in
    ap (convert_scanned convert s) (
      scan-null (length s) 0 (b ∷ before) d after none
        (omega (arith, length-append before (0 ∷ d ∷ after))) short)

-- The older conversions, where the routine that they call is as documented, for texts shorter than 2 ^ 31:
-- a text that is not empty and has no null is converted, if each of its characters has an encoding, and
-- the encoding is not longer than the text, to that encoding, filled up to the text's length with nulls,
-- and fails otherwise; with one null behind it, it has the same result; and a text with a null before its
-- last character is refused.
pub convert_string_old-nulls :
    (convert : Converter) (encode : Text → Option Text) (c : ℕ) (s before : Text) (d : ℕ)
    (after : Text)
    → IsDocumented convert encode
    → All (λ c. c ≢ 0) (c ∷ s)
    → length ((c ∷ s) ++ (0 ∷ [])) ≤ int_max
    → length (before ++ (0 ∷ d ∷ after)) ≤ int_max
    → (convert_string_old convert (c ∷ s) ≡ old_result (encode (c ∷ s)) (c ∷ s))
      × (convert_string_old convert ((c ∷ s) ++ (0 ∷ [])) ≡ old_result (encode (c ∷ s)) (c ∷ s))
      × (convert_string_old convert (before ++ (0 ∷ d ∷ after)) ≡ unexpected_null)
unfolding convert_string_old convert_scanned
convert_string_old-nulls convert encode c s before d after documented free short short' =
    let t = c ∷ s in
    let fewer : length t < int_max = omega (arith, length-append t (0 ∷ [])) in
    (
      ap (convert_scanned convert t) (scan-whole t free (omega arith))
          ∙ ap (convert_into convert (t ++ (0 ∷ []))) (omega arith)
          ∙ convert_into_lem convert encode t [] documented free,
      ap (convert_scanned convert (t ++ (0 ∷ []))) (scan-terminated t free fewer)
          ∙ ap₂ (convert_into convert) (append_assoc t (0 ∷ []) (0 ∷ []))
              (omega (arith, length-append t (0 ∷ [])))
          ∙ convert_into_lem convert encode t (0 ∷ []) documented free,
      convert_string_old-refused convert before d after short',
    )
