-- ===== src/Strings/Replacing.antt =====
-- Replace and Erase of src/WFPController/Strings/wfpcontroller.strings.cpp against the pieces of a text.
use basic_windows_drivers.Base.{
  ℕ, zero, suc, ◌+◌, ◌-◌, ◌≤◌, ◌<◌, ◌≡◌, refl, ap, sym, List, [], ◌∷◌, ◌++◌, none, some, ◌==◌,
  length, take, drop, append_assoc, arith,
}
use basic_windows_drivers.Strings.Text.{Text, starts_with, find, find_at}
use basic_windows_drivers.Strings.Split.{tokenise_string, replace_loop, replace, erase}
use basic_windows_drivers.Strings.Search.{find-parts, find-within, find-take}
use basic_windows_drivers.Strings.Pieces.{
  Pieces, last, more, join, length-drop, drop-drop, Pieces-nonempty, Pieces-total, shorter,
}
use basic_windows_drivers.Strings.Tokens.{tokenise_string-join}

module _ (c : ℕ) (pattern : Text) where
  abbrev delimiter : Text
  delimiter = c ∷ pattern

  replace_step :
      (fuel last_pos position : ℕ) (source to new_string : Text)
      → last_pos ≤ length source
      → find delimiter (drop last_pos source) ≡ some position
      → replace_loop source delimiter to (suc fuel) last_pos new_string
        ≡ replace_loop source delimiter to fuel
            (last_pos + position + length delimiter)
            ((new_string ++ take position (drop last_pos source)) ++ to)
  unfolding replace_loop find_at
  replace_step fuel last_pos position source to new_string h e =
      let gap : last_pos + position - last_pos ≡ position = omega arith in ground (arith, gap)

  replace_stop :
      (fuel last_pos : ℕ) (source to new_string : Text)
      → find delimiter (drop last_pos source) ≡ none
      → replace_loop source delimiter to (suc fuel) last_pos new_string
        ≡ some (new_string ++ drop last_pos source)
  unfolding replace_loop find_at
  replace_stop fuel last_pos source to new_string e = ground arith

  replace_loop-Pieces :
      (fuel last_pos : ℕ) (source to new_string : Text) {rest : Text} {tokens : List Text}
      → last_pos ≤ length source
      → rest ≡ drop last_pos source
      → length rest < fuel
      → Pieces delimiter rest tokens
      → replace_loop source delimiter to fuel last_pos new_string
        ≡ some (new_string ++ join to tokens)
  replace_loop-Pieces zero last_pos source to new_string b r h p = absurd (omega arith)
  replace_loop-Pieces (suc fuel) last_pos source to new_string b r h (last rest e) =
      ground (arith, replace_stop fuel last_pos source to new_string)
  replace_loop-Pieces (suc fuel) last_pos source to new_string b r h
        (more rest position {rest = rest'} {tokens = tokens} e r' p) =
      let head = take position rest in
      let within = find-within delimiter rest position e in
      let cut = length-drop last_pos source in
      let here : length rest ≡ length (drop last_pos source) = ap length r in
      let assoc : last_pos + position + length delimiter
          ≡ last_pos + (position + length delimiter) =
        omega arith in
      let there : rest' ≡ drop (last_pos + position + length delimiter) source =
        rw (assoc, drop-drop last_pos (position + length delimiter) source, ← r) r' in
      let (t, ts, shape) = Pieces-nonempty p in
      let ih =
        replace_loop-Pieces fuel (last_pos + position + length delimiter) source to
          ((new_string ++ head) ++ to) (omega (arith, within, cut, here)) there
          (omega (arith, shorter c pattern rest position e, ap length r')) p in
      ground (
        arith,
        replace_step fuel last_pos position source to new_string b (rw (← r) e),
        ih,
        shape,
        append_assoc (new_string ++ head) to (join to tokens),
        append_assoc new_string head (to ++ join to tokens),
      )

  -- With a text to replace that is not empty and more fuel than the source is long, Replace ends, and
  -- its answer is the source's tokens, by that text, joined by the new one.
  pub replace-tokenise_string :
      (fuel : ℕ) (source to : Text)
      → length source < fuel
      → (tokens : List Text) × (tokenise_string fuel source (c ∷ pattern) ≡ some tokens)
        × (replace fuel source (c ∷ pattern) to ≡ some (join to tokens))
  unfolding replace
  replace-tokenise_string fuel source to h =
      let (tokens, runs, p, joined, free) = tokenise_string-join c pattern fuel source h in
      (tokens, runs, replace_loop-Pieces fuel 0 source to [] (omega arith) refl h p)

==_sym : (a b : ℕ) → (a == b) ≡ (b == a)
==_sym a b = ground arith

erase-append : (s t : Text) (c : ℕ) → erase (s ++ t) c ≡ erase s c ++ erase t c
unfolding erase
erase-append [] t c = refl
erase-append (d ∷ s) t c = ground (arith, erase-append s t c)

erase-head : (c : ℕ) (s : Text) → erase (c ∷ s) c ≡ erase s c
unfolding erase
erase-head c s = ground arith

erase-free : (s : Text) (c : ℕ) → find (c ∷ []) s ≡ none → erase s c ≡ s
unfolding erase find starts_with
erase-free [] c h = refl
erase-free (d ∷ s) c h = ground (arith, erase-free s c, ==_sym c d)

erase-Pieces :
    {c : ℕ} {s : Text} {tokens : List Text} → Pieces (c ∷ []) s tokens → join [] tokens ≡ erase s c
erase-Pieces {c} (last s e) = sym (erase-free s c e)
erase-Pieces {c} (more s position {rest = rest} {tokens = tokens} e r p) =
    let (t, ts, shape) = Pieces-nonempty p in
    let head = take position s in
    let parts : s ≡ head ++ (c ∷ rest) = ground (arith, find-parts (c ∷ []) s position e, r) in
    let erased : erase s c ≡ head ++ erase rest c = ground (
      arith,
      parts,
      erase-append head (c ∷ rest) c,
      erase-free head c (find-take c [] s position e),
      erase-head c rest,
    ) in
    let joined : join [] (head ∷ tokens) ≡ head ++ join [] tokens = ground (arith, shape) in
    rw (joined, erased, erase-Pieces p)

-- With more fuel than the text is long, erasing a character is replacing it by nothing.
pub erase-replace :
    (fuel : ℕ) (s : Text) (c : ℕ) → length s < fuel → replace fuel s (c ∷ []) [] ≡ some (erase s c)
unfolding replace
erase-replace fuel s c h =
    let (tokens, p) = Pieces-total c [] fuel s h in
    let replaced = replace_loop-Pieces c [] fuel 0 s [] [] (omega arith) refl h p in
    rw (← erase-Pieces p) replaced
