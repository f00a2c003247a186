-- ===== src/FilterDriver/Interleaving.antt =====
-- The data path of src/FilterDriver/main.cpp on many processors: any number of calls of the send, send
-- complete, receive and return handlers of one module in the retail build, each shared access a step of
-- its own, in any order. The module tracks its sends and receives.
pub mod Counting
pub mod Exact
pub mod Alone
pub mod Progress
mod Examples
use basic_windows_drivers.Base.{ℕ, suc, ◌+◌, ◌-◌, ◌≤◌, ◌≡◌, Bool, true, false, List, [], ◌∷◌, ◌++◌}
use basic_windows_drivers.Base.Word.{add32, sub32}

-- What the calls share: whether Lock is held, OutstandingSends and OutstandingRcvs; and how many NBLs are
-- with the layers below, and received ones with the layers above.
pub record Shared : Type 0 where
  pub locked : Bool
  pub outstanding_sends : ℕ
  pub outstanding_rcvs : ℕ
  pub below : ℕ
  pub above : ℕ

-- Where a call stands, with the number of NBLs of its chain and what it has read.
pub data Pc : Type 0 where
  -- FilterSendNetBufferLists: before the lock; in the loop, with the NBLs that are counted and those
  -- that are left; between the two halves of OutstandingSends++; before NdisFSendNetBufferLists.
  sending : ℕ → Pc
  counting : ℕ → ℕ → Pc
  count_loaded : ℕ → ℕ → ℕ → Pc
  passing : ℕ → Pc
  -- FilterSendNetBufferListsComplete, after its loop.
  completing : ℕ → Pc
  completing_locked : ℕ → Pc
  complete_loaded : ℕ → ℕ → Pc
  complete_stored : Pc
  handing_back : Pc
  -- FilterReceiveNetBufferLists, with whether the layers above may keep the NBLs.
  receiving : ℕ → Bool → Pc
  receiving_locked : ℕ → Bool → Pc
  receive_loaded : ℕ → Bool → ℕ → Pc
  receive_stored : ℕ → Bool → Pc
  indicating : ℕ → Bool → Pc
  -- FilterReturnNetBufferLists, before NdisFReturnNetBufferLists.
  giving_back : ℕ → Pc
  -- The subtraction at the end of a receive whose NBLs may not be kept, and of a return.
  taking_off : ℕ → Pc
  taking_off_locked : ℕ → Pc
  take_off_loaded : ℕ → ℕ → Pc
  take_off_stored : Pc
  finished : Pc

-- One step of one call.
pub data Move (m : Shared) : Pc → Shared → Pc → Type 0 where
  lock_send :
      {k : ℕ} → m.locked ≡ false → Move m (sending k) (record m { locked = true }) (counting 0 k)
  load_send : {c j : ℕ} → Move m (counting c (suc j)) m (count_loaded c j m.outstanding_sends)
  store_send :
      {c j n : ℕ}
      → Move m
          (count_loaded c j n)
          (record m { outstanding_sends = add32 n 1 })
          (counting (suc c) j)
  unlock_send : {c j : ℕ} → j ≡ 0 → Move m (counting c j) (record m { locked = false }) (passing c)
  pass : {k : ℕ} → Move m (passing k) (record m { below = m.below + k }) finished
  lock_complete :
      {k : ℕ}
      → m.locked ≡ false
      → Move m (completing k) (record m { locked = true }) (completing_locked k)
  load_complete : {k : ℕ} → Move m (completing_locked k) m (complete_loaded k m.outstanding_sends)
  store_complete :
      {k n : ℕ}
      → Move m (complete_loaded k n) (record m { outstanding_sends = sub32 n k }) complete_stored
  unlock_complete : Move m complete_stored (record m { locked = false }) handing_back
  hand_back : Move m handing_back m finished
  lock_receive :
      {k : ℕ} {can : Bool}
      → m.locked ≡ false
      → Move m (receiving k can) (record m { locked = true }) (receiving_locked k can)
  load_receive :
      {k : ℕ} {can : Bool}
      → Move m (receiving_locked k can) m (receive_loaded k can m.outstanding_rcvs)
  store_receive :
      {k : ℕ} {can : Bool} {n : ℕ}
      → Move m
          (receive_loaded k can n)
          (record m { outstanding_rcvs = add32 n k })
          (receive_stored k can)
  unlock_receive :
      {k : ℕ} {can : Bool}
      → Move m (receive_stored k can) (record m { locked = false }) (indicating k can)
  indicate_kept :
      {k : ℕ} {can : Bool}
      → can ≡ true
      → Move m (indicating k can) (record m { above = m.above + k }) finished
  indicate_back : {k : ℕ} {can : Bool} → can ≡ false → Move m (indicating k can) m (taking_off k)
  give_back : {k : ℕ} → Move m (giving_back k) m (taking_off k)
  lock_take :
      {k : ℕ}
      → m.locked ≡ false
      → Move m (taking_off k) (record m { locked = true }) (taking_off_locked k)
  load_take : {k : ℕ} → Move m (taking_off_locked k) m (take_off_loaded k m.outstanding_rcvs)
  store_take :
      {k n : ℕ}
      → Move m (take_off_loaded k n) (record m { outstanding_rcvs = sub32 n k }) take_off_stored
  unlock_take : Move m take_off_stored (record m { locked = false }) finished

-- The calls that have been made so far.
pub record State : Type 0 where
  pub shared : Shared
  pub calls : List Pc

-- NDIS makes a new call, or one of the calls moves. It gives back only what it has.
pub data Step (s : State) : State → Type 0 where
  call_send : (k : ℕ) → Step s (record s { calls = sending k ∷ s.calls })
  call_complete :
      (k : ℕ)
      → k ≤ s.shared.below
      → Step s (record {
        shared = record (s.shared) { below = s.shared.below - k };
        calls = completing k ∷ s.calls;
      })
  call_receive : (k : ℕ) (can : Bool) → Step s (record s { calls = receiving k can ∷ s.calls })
  call_return :
      (k : ℕ)
      → k ≤ s.shared.above
      → Step s (record {
        shared = record (s.shared) { above = s.shared.above - k };
        calls = giving_back k ∷ s.calls;
      })
  run :
      (before after : List Pc) {p p' : Pc} {m : Shared}
      → s.calls ≡ before ++ (p ∷ after)
      → Move s.shared p m p'
      → Step s (record { shared = m; calls = before ++ (p' ∷ after) })

pub data Reach (s : State) : State → Type 0 where
  start : Reach s s
  later : {t u : State} → Reach s t → Step t u → Reach s u
