-- ===== src/Strings/Pieces.antt =====
-- The pieces of a text between the places where a delimiter stands, the abstract view of TokeniseString
-- and Replace (src/WFPController/Strings/wfpcontroller.strings.cpp).
use basic_windows_drivers.Base.{
  ℕ, zero, suc, ◌+◌, ◌-◌, ◌<◌, ◌≡◌, refl, ap, inl, inr, List, [], ◌∷◌, ◌++◌, Option, none, some,
  length, take, drop, All, Option-cases, arith,
}
use mathlib.Core.Option
use basic_windows_drivers.Strings.Text.{Text, find, find_at}
use basic_windows_drivers.Strings.Search.{find-parts, find-within, find-take}

-- The pieces of a text: cut at the first delimiter, again and again.
pub data Pieces (delimiter : Text) : Text → List Text → Type 0 where
  last : (s : Text) → find delimiter s ≡ none → Pieces delimiter s (s ∷ [])
  more :
      (s : Text) (position : ℕ) {rest : Text} {tokens : List Text}
      → find delimiter s ≡ some position
      → rest ≡ drop (position + length delimiter) s
      → Pieces delimiter rest tokens
      → Pieces delimiter s (take position s ∷ tokens)

abbrev pub join : Text → List Text → Text
join delimiter [] = []
join delimiter (token ∷ []) = token
join delimiter (token ∷ next ∷ tokens) = token ++ (delimiter ++ join delimiter (next ∷ tokens))

pub length-drop : (n : ℕ) (s : Text) → length (drop n s) ≡ length s - n
length-drop zero s = omega arith
length-drop (suc n) [] = omega arith
length-drop (suc n) (c ∷ s) = omega (arith, length-drop n s)

pub drop-drop : (n k : ℕ) (s : Text) → drop (n + k) s ≡ drop k (drop n s)
drop-drop zero k s = let e : zero + k ≡ k = omega arith in rw e
drop-drop (suc n) zero [] = let e : suc n + zero ≡ suc n = omega arith in rw e
drop-drop (suc n) (suc k) [] = let e : suc n + suc k ≡ suc (n + suc k) = omega arith in rw e
drop-drop (suc n) k (c ∷ s) =
    let e : suc n + k ≡ suc (n + k) = omega arith in rw e (drop-drop n k s)

pub Pieces-nonempty :
    {delimiter s : Text} {tokens : List Text}
    → Pieces delimiter s tokens
    → (t : Text) × (ts : List Text) × (tokens ≡ t ∷ ts)
Pieces-nonempty (last s e) = (s, [], refl)
Pieces-nonempty (more s position {tokens = tokens} e r p) = (take position s, tokens, refl)

-- Joined by the delimiter the pieces are the text again.
pub join-Pieces :
    {delimiter s : Text} {tokens : List Text}
    → Pieces delimiter s tokens
    → join delimiter tokens ≡ s
join-Pieces (last s e) = refl
join-Pieces {delimiter} (more s position e r p) =
    let (t, ts, shape) = Pieces-nonempty p in
    let whole = join-Pieces p in ground (arith, find-parts delimiter s position e, shape, whole)

-- No piece holds the delimiter.
pub Pieces-free :
    {c : ℕ} {pattern s : Text} {tokens : List Text}
    → Pieces (c ∷ pattern) s tokens
    → All (λ (t : Text). find (c ∷ pattern) t ≡ none) tokens
Pieces-free (last s e) = (e, tt)
Pieces-free {c} {pattern} (more s position e r p) =
    (find-take c pattern s position e, Pieces-free p)

map-zero : (o : Option ℕ) → Option.map (λ i. 0 + i) o ≡ o
map-zero none = refl
map-zero (some i) = ap some (omega arith)

pub Pieces-none :
    {delimiter s : Text} {tokens : List Text}
    → Pieces delimiter s tokens
    → find delimiter s ≡ none
    → tokens ≡ s ∷ []
Pieces-none (last s e) h = refl
Pieces-none (more s position e r p) h = cc

module _ (c : ℕ) (pattern : Text) where
  abbrev delimiter : Text
  delimiter = c ∷ pattern

  pub Pieces-total :
      (fuel : ℕ) (s : Text) → length s < fuel → (tokens : List Text) × Pieces (c ∷ pattern) s tokens
  Pieces-total zero s h = absurd (omega arith)
  Pieces-total (suc fuel) s h = elim (Option-cases (find (c ∷ pattern) s)) [
    | inl e ↦ (s ∷ [], last s e)
    | inr (position, e) ↦
        let rest = drop (position + length (c ∷ pattern)) s in
        let (tokens, p) = Pieces-total fuel rest (
          omega (
            arith,
            length-drop (position + length (c ∷ pattern)) s,
            find-within (c ∷ pattern) s position e,
          )) in
        (take position s ∷ tokens, more s position e refl p)
  ]

  pub shorter :
      (s : Text) (position : ℕ)
      → find delimiter s ≡ some position
      → length (drop (position + length delimiter) s) < length s
  shorter s position e =
      omega (arith, length-drop (position + length delimiter) s, find-within delimiter s position e)

  pub find_at_start : (s : Text) → find_at delimiter s 0 ≡ find delimiter s
  unfolding find_at
  find_at_start s = ground (arith, map-zero (find delimiter s))
