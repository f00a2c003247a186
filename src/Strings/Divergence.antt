-- ===== src/Strings/Divergence.antt =====
-- TokeniseString and Replace of src/WFPController/Strings/wfpcontroller.strings.cpp on an empty delimiter.
use basic_windows_drivers.Base.{ℕ, zero, suc, ◌≡◌, refl, List, [], ◌∷◌, ◌++◌, none, some, arith}
use basic_windows_drivers.Strings.Text.{Text, starts_with, find, find_at}
use basic_windows_drivers.Strings.Split.{tokenise_loop, tokenise_string, replace_loop, replace}

find_empty : (s : Text) → find [] s ≡ some 0
unfolding find starts_with
find_empty [] = refl
find_empty (c ∷ s) = refl

find_at_empty : (s : Text) → find_at [] s 0 ≡ some 0
unfolding find_at
find_at_empty s = ground (arith, find_empty s)

tokenise_loop_empty :
    (fuel : ℕ) (s : Text) (results : List Text) → tokenise_loop [] fuel s results ≡ none
unfolding tokenise_loop
tokenise_loop_empty zero s results = refl
tokenise_loop_empty (suc fuel) s results =
    ground (arith, find_empty s, tokenise_loop_empty fuel s (results ++ ([] ∷ [])))

replace_loop_empty :
    (fuel : ℕ) (s to new_string : Text) → replace_loop s [] to fuel 0 new_string ≡ none
unfolding replace_loop
replace_loop_empty zero s to new_string = refl
replace_loop_empty (suc fuel) s to new_string =
    ground (arith, find_at_empty s, replace_loop_empty fuel s to ((new_string ++ []) ++ to))

-- With an empty delimiter, or an empty text to replace, neither loop ends on any text, whatever the
-- fuel.
pub empty_delimiter_diverges :
    (fuel : ℕ) (s to : Text) → (tokenise_string fuel s [] ≡ none) × (replace fuel s [] to ≡ none)
unfolding tokenise_string replace
empty_delimiter_diverges fuel s to = (
  ground (arith, find_at_empty s, tokenise_loop_empty fuel s []),
  replace_loop_empty fuel s to [],
)
