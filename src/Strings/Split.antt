-- ===== src/Strings/Split.antt =====
-- TokeniseString, Replace and Erase of src/WFPController/Strings/wfpcontroller.strings.cpp. The two
-- loops run on fuel, and `none` says that it ran out.
use basic_windows_drivers.Base.{
  ℕ, zero, suc, ◌+◌, ◌-◌, List, [], ◌∷◌, ◌++◌, Option, none, some, if◌then◌else◌, ◌==◌, length,
}
use basic_windows_drivers.Strings.Text.{Text, find, find_at, substr_from, substr}

unfoldable pub tokenise_loop : Text → ℕ → Text → List Text → Option (List Text)
tokenise_loop delimiter zero s results = none
tokenise_loop delimiter (suc fuel) s results = elim (find delimiter s) [
  | none ↦ some results
  | some position ↦
      let split = results ++ (substr s 0 position ∷ []) in
      let rest = substr_from s (position + length delimiter) in
      let results' : List Text = elim (find delimiter rest) [
        | none ↦ split ++ (rest ∷ [])
        | some _ ↦ split
      ] in
      tokenise_loop delimiter fuel rest results'
]

unfoldable pub tokenise_string : ℕ → Text → Text → Option (List Text)
tokenise_string fuel string_to_tokenise delimiter = elim (find_at delimiter string_to_tokenise 0) [
  | none ↦ some (string_to_tokenise ∷ [])
  | some _ ↦ tokenise_loop delimiter fuel string_to_tokenise []
]

unfoldable pub replace_loop : Text → Text → Text → ℕ → ℕ → Text → Option Text
replace_loop source from to zero last_pos new_string = none
replace_loop source from to (suc fuel) last_pos new_string = elim (find_at from source last_pos) [
  | none ↦ some (new_string ++ substr_from source last_pos)
  | some find_pos ↦
      replace_loop source from to fuel (find_pos + length from)
        ((new_string ++ substr source last_pos (find_pos - last_pos)) ++ to)
]

unfoldable pub replace : ℕ → Text → Text → Text → Option Text
replace fuel source from to = replace_loop source from to fuel 0 []

unfoldable pub erase : Text → ℕ → Text
erase [] what = []
erase (c ∷ s) what = let rest = erase s what in if c == what then rest else c ∷ rest
