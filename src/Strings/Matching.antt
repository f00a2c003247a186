-- ===== src/Strings/Matching.antt =====
-- DoCaseInsensitiveMatch of src/WFPController/Strings as a relation of texts.
use basic_windows_drivers.Base.{ℕ, ◌≡◌, refl, ◌∙◌, sym, ap, ap₂, true, ==_refl, [], ◌∷◌, map, arith}
use basic_windows_drivers.Strings.Text.{Text}
use basic_windows_drivers.Strings.Older.{same_text, do_case_insensitive_match}

same_text_refl : (s : Text) → same_text s s ≡ true
unfolding same_text
same_text_refl [] = refl
same_text_refl (c ∷ s) = rw (==_refl c) (same_text_refl s)

same_text_eq : (s t : Text) → same_text s t ≡ true → s ≡ t
unfolding same_text
same_text_eq [] [] e = refl
same_text_eq [] (d ∷ t) e = absurd (ground arith)
same_text_eq (c ∷ s) [] e = absurd (ground arith)
same_text_eq (c ∷ s) (d ∷ t) e = ap₂ (◌∷◌) (ground arith) (same_text_eq s t (ground arith))

same_text-of_eq : (s t : Text) → s ≡ t → same_text s t ≡ true
same_text-of_eq s t e = ap (same_text s) (sym e) ∙ same_text_refl s

map-map_lower :
    (tolower : ℕ → ℕ) (s : Text)
    → ((c : ℕ) → tolower (tolower c) ≡ tolower c)
    → map tolower (map tolower s) ≡ map tolower s
map-map_lower tolower [] idem = refl
map-map_lower tolower (c ∷ s) idem = ap₂ (◌∷◌) (idem c) (map-map_lower tolower s idem)

-- With a lower case that is its own lower case, the match holds of a text and itself, of a text and the
-- text in lower case, in both directions, and from one text over a second to a third.
pub do_case_insensitive_match_lem :
    (tolower : ℕ → ℕ) (s t u : Text)
    → ((c : ℕ) → tolower (tolower c) ≡ tolower c)
    → (do_case_insensitive_match tolower s s ≡ true)
      × (do_case_insensitive_match tolower s (map tolower s) ≡ true)
      × (do_case_insensitive_match tolower s t ≡ true
          → do_case_insensitive_match tolower t s ≡ true)
      × (do_case_insensitive_match tolower s t ≡ true
          → do_case_insensitive_match tolower t u ≡ true
          → do_case_insensitive_match tolower s u ≡ true)
unfolding do_case_insensitive_match
do_case_insensitive_match_lem tolower s t u idem =
    let lower = map tolower in
    let eq = same_text_eq in
    (
      same_text_refl (lower s),
      same_text-of_eq (lower s) (lower (lower s)) (sym (map-map_lower tolower s idem)),
      λ e. same_text-of_eq (lower t) (lower s) (sym (eq (lower s) (lower t) e)),
      λ e f.
          same_text-of_eq (lower s) (lower u) (eq (lower s) (lower t) e ∙ eq (lower t) (lower u) f),
    )
