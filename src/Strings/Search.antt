-- ===== src/Strings/Search.antt =====
-- Laws of the search of Strings/Text.antt.
use basic_windows_drivers.Base.{
  ℕ, zero, suc, ◌+◌, ◌≤◌, ◌≡◌, refl, true, [], ◌∷◌, ◌++◌, Option, none, some, length, take, drop,
  arith,
}
use mathlib.Core.Option
use basic_windows_drivers.Strings.Text.{Text, starts_with, find}

starts_with-drop :
    (pattern s : Text) → starts_with pattern s ≡ true → s ≡ pattern ++ drop (length pattern) s
unfolding starts_with
starts_with-drop [] s h = refl
starts_with-drop (c ∷ pattern) [] h = cc
starts_with-drop (c ∷ pattern) (d ∷ s) h = ground (arith, starts_with-drop pattern s)

starts_with-length : (pattern s : Text) → starts_with pattern s ≡ true → length pattern ≤ length s
unfolding starts_with
starts_with-length [] s h = omega arith
starts_with-length (c ∷ pattern) [] h = cc
starts_with-length (c ∷ pattern) (d ∷ s) h = ground (arith, starts_with-length pattern s)

map-suc : (o : Option ℕ) (n : ℕ) → Option.map suc o ≡ some (suc n) → o ≡ some n
map-suc o n h = ground arith

-- Where the pattern is found, the text falls apart round it.
pub find-parts :
    (pattern s : Text) (position : ℕ)
    → find pattern s ≡ some position
    → s ≡ take position s ++ (pattern ++ drop (position + length pattern) s)
unfolding find
find-parts pattern [] position h = ground (arith, starts_with-drop pattern [])
find-parts pattern (c ∷ s) zero h = ground (arith, starts_with-drop pattern (c ∷ s))
find-parts pattern (c ∷ s) (suc position) h =
    let e : suc position + length pattern ≡ suc (position + length pattern) = omega arith in
    rw e (ground (arith, find-parts pattern s position, map-suc (find pattern s) position))

pub find-within :
    (pattern s : Text) (position : ℕ)
    → find pattern s ≡ some position
    → position + length pattern ≤ length s
unfolding find
find-within pattern [] position h = ground (arith, starts_with-length pattern [])
find-within pattern (c ∷ s) zero h = ground (arith, starts_with-length pattern (c ∷ s))
find-within pattern (c ∷ s) (suc position) h =
    ground (arith, find-within pattern s position, map-suc (find pattern s) position)

starts_with-take :
    (pattern s : Text) (n : ℕ)
    → starts_with pattern (take n s) ≡ true
    → starts_with pattern s ≡ true
unfolding starts_with
starts_with-take [] s n h = refl
starts_with-take (c ∷ pattern) [] zero h = h
starts_with-take (c ∷ pattern) [] (suc n) h = h
starts_with-take (c ∷ pattern) (d ∷ s) zero h = cc
starts_with-take (c ∷ pattern) (d ∷ s) (suc n) h = ground (arith, starts_with-take pattern s n)

-- The first place found is the first: what stands before it does not hold the pattern.
pub find-take :
    (c : ℕ) (pattern s : Text) (position : ℕ)
    → find (c ∷ pattern) s ≡ some position
    → find (c ∷ pattern) (take position s) ≡ none
unfolding find starts_with
find-take c pattern [] position h = cc
find-take c pattern (d ∷ s) zero h = refl
find-take c pattern (d ∷ s) (suc position) h =
    ground
      (arith, find-take c pattern s position, starts_with-take (c ∷ pattern) (d ∷ s) (suc position))
