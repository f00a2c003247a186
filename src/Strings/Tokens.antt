-- ===== src/Strings/Tokens.antt =====
-- TokeniseString of src/WFPController/Strings/wfpcontroller.strings.cpp against the pieces of a text.
use basic_windows_drivers.Base.{
  ℕ, zero, suc, ◌+◌, ◌<◌, ◌≡◌, ap, inl, inr, List, [], ◌∷◌, ◌++◌, none, some, length, take, drop,
  All, Option-cases, append_assoc, arith,
}
use basic_windows_drivers.Strings.Text.{Text, find}
use basic_windows_drivers.Strings.Split.{tokenise_loop, tokenise_string}
use basic_windows_drivers.Strings.Pieces.{
  Pieces, last, more, join, join-Pieces, Pieces-free, Pieces-none, Pieces-total, find_at_start,
  shorter,
}

module _ (c : ℕ) (pattern : Text) where
  abbrev delimiter : Text
  delimiter = c ∷ pattern

  loop_stops :
      (fuel : ℕ) (s : Text) (results : List Text)
      → find delimiter s ≡ none
      → tokenise_loop delimiter (suc fuel) s results ≡ some results
  unfolding tokenise_loop
  loop_stops fuel s results e = ground arith

  loop_goes_on :
      (fuel position : ℕ) (s : Text) (results : List Text) (n : ℕ)
      → find delimiter s ≡ some position
      → find delimiter (drop (position + length delimiter) s) ≡ some n
      → tokenise_loop delimiter (suc fuel) s results
        ≡ tokenise_loop delimiter fuel
            (drop (position + length delimiter) s)
            (results ++ (take position s ∷ []))
  unfolding tokenise_loop
  loop_goes_on fuel position s results n e f = ground arith

  loop_ends :
      (fuel position : ℕ) (s : Text) (results : List Text)
      → find delimiter s ≡ some position
      → find delimiter (drop (position + length delimiter) s) ≡ none
      → tokenise_loop delimiter (suc (suc fuel)) s results
        ≡ some ((results ++ (take position s ∷ [])) ++ (drop (position + length delimiter) s ∷ []))
  unfolding tokenise_loop
  loop_ends fuel position s results e f = ground arith

  -- The loop, from a text in which the delimiter stands, appends the pieces to the results.
  tokenise_loop-Pieces :
      (fuel : ℕ) (s : Text) (results : List Text) {tokens : List Text} {position : ℕ}
      → length s < fuel
      → find delimiter s ≡ some position
      → Pieces delimiter s tokens
      → tokenise_loop delimiter fuel s results ≡ some (results ++ tokens)
  tokenise_loop-Pieces zero s results h found p = absurd (omega arith)
  tokenise_loop-Pieces (suc fuel) s results h found (last _ e) = cc
  tokenise_loop-Pieces (suc zero) s results h found (more _ position e r p) =
      absurd (omega (arith, shorter c pattern s position e))
  tokenise_loop-Pieces (suc (suc fuel)) s results h found (more _ position e r (last rest e')) =
      ground (
        arith,
        loop_ends fuel position s results e,
        append_assoc results (take position s ∷ []) (rest ∷ []),
      )
  tokenise_loop-Pieces (suc (suc fuel)) s results h found
        (more _ position e r (more rest position' {tokens = tokens} e' r' p)) =
      let ih =
        tokenise_loop-Pieces (suc fuel) rest (results ++ (take position s ∷ []))
          (omega (arith, shorter c pattern s position e, ap length r)) e'
          (more rest position' e' r' p) in
      ground (
        arith,
        loop_goes_on (suc fuel) position s results position' e,
        append_assoc results (take position s ∷ []) (take position' rest ∷ tokens),
        ih,
      )

  -- With a delimiter that is not empty and more fuel than the text is long, the loop ends, and the
  -- tokens are the text's pieces: joined by the delimiter they are the text, and none of them holds
  -- the delimiter.
  pub tokenise_string-join :
      (fuel : ℕ) (s : Text)
      → length s < fuel
      → (tokens : List Text) × (tokenise_string fuel s (c ∷ pattern) ≡ some tokens)
        × Pieces (c ∷ pattern) s tokens
        × (join (c ∷ pattern) tokens ≡ s)
        × All (λ (t : Text). find (c ∷ pattern) t ≡ none) tokens
  unfolding tokenise_string
  tokenise_string-join fuel s h =
      let (tokens, p) = Pieces-total c pattern fuel s h in
      (
        tokens,
        elim (Option-cases (find delimiter s)) [
          | inl e ↦ ground (arith, find_at_start c pattern s, Pieces-none p e)
          | inr (position, e) ↦
              ground (arith, find_at_start c pattern s, tokenise_loop-Pieces fuel s [] h e p)
        ],
        p,
        join-Pieces p,
        Pieces-free p,
      )
