-- ===== src/FilterDriver/Interleaving/Counting.antt =====
-- What the counters of the data path count, and what one step does to the sums.
use basic_windows_drivers.Base.{ℕ, ◌+◌, ◌≡◌, refl, List, [], ◌∷◌, ◌++◌, if◌then◌else◌, All, arith}
use basic_windows_drivers.Base.Word.{ulong, add32, sub32}
use basic_windows_drivers.FilterDriver.Interleaving.{
  Shared, Pc, counting, count_loaded, passing, completing, completing_locked, complete_loaded,
  complete_stored, receiving_locked, receive_loaded, receive_stored, indicating, giving_back,
  taking_off, taking_off_locked, take_off_loaded, take_off_stored, Move, lock_send, load_send,
  store_send, unlock_send, pass, lock_complete, load_complete, store_complete, unlock_complete,
  hand_back, lock_receive, load_receive, store_receive, unlock_receive, indicate_kept,
  indicate_back, give_back, lock_take, load_take, store_take, unlock_take,
}

-- The NBLs of a call that OutstandingSends counts and that are not with the layers below.
abbrev pub sends_of : Pc → ℕ
sends_of (counting c j) = c
sends_of (count_loaded c j n) = c
sends_of (passing k) = k
sends_of (completing k) = k
sends_of (completing_locked k) = k
sends_of (complete_loaded k n) = k
sends_of _ = 0

-- The NBLs of a call that OutstandingRcvs counts and that are not with the layers above.
abbrev pub rcvs_of : Pc → ℕ
rcvs_of (receive_stored k can) = k
rcvs_of (indicating k can) = k
rcvs_of (giving_back k) = k
rcvs_of (taking_off k) = k
rcvs_of (taking_off_locked k) = k
rcvs_of (take_off_loaded k n) = k
rcvs_of _ = 0

-- Whether a call is between FILTER_ACQUIRE_LOCK and FILTER_RELEASE_LOCK.
abbrev pub holds : Pc → ℕ
holds (counting c j) = 1
holds (count_loaded c j n) = 1
holds (completing_locked k) = 1
holds (complete_loaded k n) = 1
holds complete_stored = 1
holds (receiving_locked k can) = 1
holds (receive_loaded k can n) = 1
holds (receive_stored k can) = 1
holds (taking_off_locked k) = 1
holds (take_off_loaded k n) = 1
holds take_off_stored = 1
holds _ = 0

abbrev pub total : (Pc → ℕ) → List Pc → ℕ
total w [] = 0
total w (p ∷ ps) = w p + total w ps

-- What a call has read is what is there.
abbrev pub IsFresh : Shared → Pc → Type 0
IsFresh m (count_loaded c j n) = n ≡ m.outstanding_sends
IsFresh m (complete_loaded k n) = n ≡ m.outstanding_sends
IsFresh m (receive_loaded k can n) = n ≡ m.outstanding_rcvs
IsFresh m (take_off_loaded k n) = n ≡ m.outstanding_rcvs
IsFresh m _ = Unit

-- Each counter is what is on its way, at most one call holds the lock, and it holds it if it is held.
pub record IsExact (m : Shared) (calls : List Pc) : Type 0 where
  pub sends : m.outstanding_sends ≡ ulong (m.below + total sends_of calls)
  pub rcvs : m.outstanding_rcvs ≡ ulong (m.above + total rcvs_of calls)
  pub one : total holds calls ≡ (if m.locked then 1 else 0)
  pub fresh : All (IsFresh m) calls

pub total-middle :
    (w : Pc → ℕ) (xs ys : List Pc) (p : Pc) → total w (xs ++ (p ∷ ys)) ≡ w p + total w (xs ++ ys)
total-middle w [] ys p = refl
total-middle w (x ∷ xs) ys p = omega (arith, total-middle w xs ys p)

-- A move keeps the three sums, whatever the sums of the other calls are.
pub Move-sums :
    {m m' : Shared} {p p' : Pc}
    → Move m p m' p'
    → IsFresh m p
    → (s r h : ℕ) → m.outstanding_sends ≡ ulong (m.below + (sends_of p + s))
    → m.outstanding_rcvs ≡ ulong (m.above + (rcvs_of p + r))
    → holds p + h ≡ (if m.locked then 1 else 0)
    → (m'.outstanding_sends ≡ ulong (m'.below + (sends_of p' + s)))
      × (m'.outstanding_rcvs ≡ ulong (m'.above + (rcvs_of p' + r)))
      × (holds p' + h ≡ (if m'.locked then 1 else 0))
unfolding add32 sub32
Move-sums (lock_send free) f s r h a b c = ground arith
Move-sums load_send f s r h a b c = ground arith
Move-sums store_send f s r h a b c = ground arith
Move-sums (unlock_send e) f s r h a b c = ground arith
Move-sums pass f s r h a b c = ground arith
Move-sums (lock_complete free) f s r h a b c = ground arith
Move-sums load_complete f s r h a b c = ground arith
Move-sums store_complete f s r h a b c = ground arith
Move-sums unlock_complete f s r h a b c = ground arith
Move-sums hand_back f s r h a b c = ground arith
Move-sums (lock_receive free) f s r h a b c = ground arith
Move-sums load_receive f s r h a b c = ground arith
Move-sums store_receive f s r h a b c = ground arith
Move-sums unlock_receive f s r h a b c = ground arith
Move-sums (indicate_kept e) f s r h a b c = ground arith
Move-sums (indicate_back e) f s r h a b c = ground arith
Move-sums give_back f s r h a b c = ground arith
Move-sums (lock_take free) f s r h a b c = ground arith
Move-sums load_take f s r h a b c = ground arith
Move-sums store_take f s r h a b c = ground arith
Move-sums unlock_take f s r h a b c = ground arith
