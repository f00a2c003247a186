-- ===== src/FilterDriver/Interleaving/Progress.antt =====
-- The moves that calls of the data path have left.
use basic_windows_drivers.Base.{
  ℕ, zero, suc, ◌+◌, ◌≤◌, ◌<◌, ◌≡◌, refl, ap, ◌⊎◌, inl, inr, true, false, List, [], ◌∷◌, ◌++◌,
  if◌then◌else◌, Bool-cases, All, arith,
}
use basic_windows_drivers.Base.Word.{ulong}
use basic_windows_drivers.FilterDriver.Interleaving.{
  Shared, Pc, sending, counting, count_loaded, passing, completing, completing_locked,
  complete_loaded, complete_stored, handing_back, receiving, receiving_locked, receive_loaded,
  receive_stored, indicating, giving_back, taking_off, taking_off_locked, take_off_loaded,
  take_off_stored, finished, Move, lock_send, load_send, store_send, unlock_send, pass,
  lock_complete, load_complete, store_complete, unlock_complete, hand_back, lock_receive,
  load_receive, store_receive, unlock_receive, indicate_kept, indicate_back, give_back, lock_take,
  load_take, store_take, unlock_take, State, run, Reach, later,
}
use basic_windows_drivers.FilterDriver.Interleaving.Counting.{
  sends_of, rcvs_of, holds, total, total-middle,
}
use basic_windows_drivers.FilterDriver.Interleaving.Exact.{quiet, Reach-IsExact, quiet-IsExact}

-- A bound on the moves that a call has left.
abbrev pub work : Pc → ℕ
work (sending k) = 3 + (k + k)
work (counting c j) = 2 + (j + j)
work (count_loaded c j n) = 3 + (j + j)
work (passing k) = 1
work (completing k) = 5
work (completing_locked k) = 4
work (complete_loaded k n) = 3
work complete_stored = 2
work handing_back = 1
work (receiving k can) = 9
work (receiving_locked k can) = 8
work (receive_loaded k can n) = 7
work (receive_stored k can) = 6
work (indicating k can) = 5
work (giving_back k) = 5
work (taking_off k) = 4
work (taking_off_locked k) = 3
work (take_off_loaded k n) = 2
work take_off_stored = 1
work finished = 0

Move-work : {m m' : Shared} {p p' : Pc} → Move m p m' p' → work p' < work p
Move-work (lock_send free) = omega arith
Move-work load_send = omega arith
Move-work store_send = omega arith
Move-work (unlock_send e) = omega arith
Move-work pass = omega arith
Move-work (lock_complete free) = omega arith
Move-work load_complete = omega arith
Move-work store_complete = omega arith
Move-work unlock_complete = omega arith
Move-work hand_back = omega arith
Move-work (lock_receive free) = omega arith
Move-work load_receive = omega arith
Move-work store_receive = omega arith
Move-work unlock_receive = omega arith
Move-work (indicate_kept e) = omega arith
Move-work (indicate_back e) = omega arith
Move-work give_back = omega arith
Move-work (lock_take free) = omega arith
Move-work load_take = omega arith
Move-work store_take = omega arith
Move-work unlock_take = omega arith

-- A call that is not done, and that either finds the lock free or holds it, can move.
Move-any :
    (m : Shared) (p : Pc)
    → (m.locked ≡ false) ⊎ (holds p ≡ 1)
    → 0 < work p
    → (m' : Shared) × (p' : Pc) × Move m p m' p'
Move-any m (sending k) (inl free) more = (_, _, lock_send free)
Move-any m (sending k) (inr e) more = absurd (omega arith)
Move-any m (counting c zero) may more = (_, _, unlock_send refl)
Move-any m (counting c (suc j)) may more = (_, _, load_send)
Move-any m (count_loaded c j n) may more = (_, _, store_send)
Move-any m (passing k) may more = (_, _, pass)
Move-any m (completing k) (inl free) more = (_, _, lock_complete free)
Move-any m (completing k) (inr e) more = absurd (omega arith)
Move-any m (completing_locked k) may more = (_, _, load_complete)
Move-any m (complete_loaded k n) may more = (_, _, store_complete)
Move-any m complete_stored may more = (_, _, unlock_complete)
Move-any m handing_back may more = (_, _, hand_back)
Move-any m (receiving k can) (inl free) more = (_, _, lock_receive free)
Move-any m (receiving k can) (inr e) more = absurd (omega arith)
Move-any m (receiving_locked k can) may more = (_, _, load_receive)
Move-any m (receive_loaded k can n) may more = (_, _, store_receive)
Move-any m (receive_stored k can) may more = (_, _, unlock_receive)
Move-any m (indicating k true) may more = (_, _, indicate_kept refl)
Move-any m (indicating k false) may more = (_, _, indicate_back refl)
Move-any m (giving_back k) may more = (_, _, give_back)
Move-any m (taking_off k) (inl free) more = (_, _, lock_take free)
Move-any m (taking_off k) (inr e) more = absurd (omega arith)
Move-any m (taking_off_locked k) may more = (_, _, load_take)
Move-any m (take_off_loaded k n) may more = (_, _, store_take)
Move-any m take_off_stored may more = (_, _, unlock_take)
Move-any m finished may more = absurd (omega arith)

-- A list of calls, taken apart at one of them.
abbrev Around : (Pc → Type 0) → List Pc → Type 0
Around P ps = (before : List Pc) × (p : Pc) × (after : List Pc) × (ps ≡ before ++ (p ∷ after)) × P p

zero_or : (n : ℕ) → (n ≡ 0) ⊎ (0 < n)
zero_or zero = inl refl
zero_or (suc n) = inr (omega arith)

-- Where a sum is not 0, one of the calls gives it something.
Around-total : (w : Pc → ℕ) (ps : List Pc) → 0 < total w ps → Around (λ p. 0 < w p) ps
Around-total w [] more = absurd (omega arith)
Around-total w (p ∷ ps) more = elim (zero_or (w p)) [
  | inr h ↦ ([], p, ps, refl, h)
  | inl e ↦
      let (before, q, after, is, h) = Around-total w ps (omega arith) in
      (p ∷ before, q, after, ap (◌∷◌ p) is, h)
]

-- Moves of the calls there are, in any order: `Runs s n t` when n moves lead from s to t.
pub data Runs (s : State) : ℕ → State → Type 0 where
  none_yet : Runs s 0 s
  one_more :
      {n : ℕ} {t : State} (before after : List Pc) {p p' : Pc} {m : Shared}
      → Runs s n t
      → t.calls ≡ before ++ (p ∷ after)
      → Move t.shared p m p'
      → Runs s (suc n) (record { shared = m; calls = before ++ (p' ∷ after) })

Runs-Reach : {r s t : State} {n : ℕ} → Reach r s → Runs s n t → Reach r t
Runs-Reach reached none_yet = reached
Runs-Reach reached (one_more before after runs is move) =
    later (Runs-Reach reached runs) (run before after is move)

Runs-work : {s t : State} {n : ℕ} → Runs s n t → n + total work t.calls ≤ total work s.calls
Runs-work none_yet = omega arith
Runs-work (one_more {t = t} before after {p} {p'} runs is move) = omega (
  arith,
  Runs-work runs,
  Move-work move,
  ap (total work) is,
  total-middle work before after p,
  total-middle work before after p',
)

-- A call that holds the lock is not done.
holds-work : (p : Pc) → 0 < holds p → (holds p ≡ 1) × (0 < work p)
holds-work (counting c j) h = (refl, omega arith)
holds-work (count_loaded c j n) h = (refl, omega arith)
holds-work (completing_locked k) h = (refl, omega arith)
holds-work (complete_loaded k n) h = (refl, omega arith)
holds-work complete_stored h = (refl, omega arith)
holds-work (receiving_locked k can) h = (refl, omega arith)
holds-work (receive_loaded k can n) h = (refl, omega arith)
holds-work (receive_stored k can) h = (refl, omega arith)
holds-work (taking_off_locked k) h = (refl, omega arith)
holds-work (take_off_loaded k n) h = (refl, omega arith)
holds-work take_off_stored h = (refl, omega arith)
holds-work _ h = absurd (omega arith)

-- Where calls are not done, one of them can move.
Runs-more :
    (s t : State) (n : ℕ)
    → Runs s n t
    → total holds t.calls ≡ (if t.shared.locked then 1 else 0)
    → 0 < total work t.calls
    → (u : State) × Runs s (suc n) u
Runs-more s t n runs one more = elim (Bool-cases t.shared.locked) [
  | inl held ↦
      let (before, p, after, is, h) = Around-total holds t.calls (ground arith) in
      let (holding, left) = holds-work p h in
      let (m, p', move) = Move-any t.shared p (inr holding) left in
      (_, one_more before after runs is move)
  | inr free ↦
      let (before, p, after, is, left) = Around-total work t.calls more in
      let (m, p', move) = Move-any t.shared p (inl free) left in
      (_, one_more before after runs is move)
]

-- Calls with nothing left to do are done, and hold and count nothing.
work-finished :
    (ps : List Pc)
    → total work ps ≡ 0
    → All (λ p. p ≡ finished) ps
      × (total holds ps ≡ 0)
      × (total sends_of ps ≡ 0)
      × (total rcvs_of ps ≡ 0)
work-finished [] e = (tt, refl, refl, refl)
work-finished (p ∷ ps) e =
    let is = of_one p (omega arith) in
    let (rest, h, s, r) = work-finished ps (omega arith) in
    (
      (is, rest),
      omega (arith, h, ap holds is),
      omega (arith, s, ap sends_of is),
      omega (arith, r, ap rcvs_of is),
    )
  where
    of_one : (p : Pc) → work p ≡ 0 → p ≡ finished
    of_one finished e = refl
    of_one (counting c j) e = absurd (omega arith)
    of_one (count_loaded c j n) e = absurd (omega arith)
    of_one (sending k) e = absurd (omega arith)
    of_one _ e = absurd (omega arith)

-- When NDIS makes no new call, the calls there are end, in whatever order they move: from any state that a
-- module with no call and nothing on its way can reach, they make at most `total work` moves, and after
-- any n of those moves either some call can make one more, or every call is finished, the lock is free,
-- and OutstandingSends and OutstandingRcvs are the sent NBLs that are with the layers below and the
-- received ones that are with the layers above, modulo 2 ^ 32.
pub Runs-end :
    (s t : State) (n : ℕ)
    → Reach quiet s
    → Runs s n t
    → (n + total work t.calls ≤ total work s.calls)
      × (((u : State) × Runs s (suc n) u)
          ⊎ (All (λ p. p ≡ finished) t.calls
              × (t.shared.locked ≡ false)
              × (t.shared.outstanding_sends ≡ ulong t.shared.below)
              × (t.shared.outstanding_rcvs ≡ ulong t.shared.above)))
Runs-end s t n reached runs =
    let e = Reach-IsExact (Runs-Reach reached runs) quiet-IsExact in
    (
      Runs-work runs,
      elim (zero_or (total work t.calls)) [
        | inr more ↦ inl (Runs-more s t n runs e.one more)
        | inl done ↦
            let (is, h, sends, rcvs) = work-finished t.calls done in
            inr (is, ground (arith, e.one), omega (arith, e.sends), omega (arith, e.rcvs))
      ],
    )
