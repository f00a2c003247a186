-- ===== src/Strings/Text.antt =====
-- What src/WFPController/Strings uses of std::wstring, over lists of code units: find, substr and
-- starts_with. `find` answers `none` for npos.
use basic_windows_drivers.Base.{
  ℕ, suc, ◌+◌, Bool, true, false, ◌&&◌, List, [], ◌∷◌, Option, none, some, if◌then◌else◌, ◌==◌, leb,
  length, take, drop,
}
use mathlib.Core.Option

abbrev pub Text : Type 0
Text = List ℕ

unfoldable pub starts_with : Text → Text → Bool
starts_with [] s = true
starts_with (c ∷ pattern) [] = false
starts_with (c ∷ pattern) (d ∷ s) = (c == d) && starts_with pattern s

-- The first position at which the pattern stands. The empty pattern stands everywhere.
unfoldable pub find : Text → Text → Option ℕ
find pattern [] = if starts_with pattern [] then some 0 else none
find pattern (c ∷ s) =
    let later = find pattern s in
    if starts_with pattern (c ∷ s) then some 0 else Option.map suc later

-- `s.find(pattern, position)`.
unfoldable pub find_at : Text → Text → ℕ → Option ℕ
find_at pattern s position =
    if leb position (length s)
    then Option.map (λ i. position + i) (find pattern (drop position s))
    else none

-- `s.substr(position)` and `s.substr(position, count)`, at positions inside the text.
abbrev pub substr_from : Text → ℕ → Text
substr_from s position = drop position s

abbrev pub substr : Text → ℕ → ℕ → Text
substr s position count = take count (drop position s)
