-- ===== src/FilterDriver/Interleaving/Exact.antt =====
-- The counters of the data path under every interleaving.
use basic_windows_drivers.Base.{
  ◌+◌, ◌-◌, ◌≤◌, ◌<◌, ◌≡◌, refl, ◌∙◌, sym, subst, false, List, [], ◌∷◌, ◌++◌, if◌then◌else◌, All,
  arith,
}
use basic_windows_drivers.Base.Word.{ulong_mod}
use basic_windows_drivers.FilterDriver.Interleaving.{
  Shared, Pc, count_loaded, complete_loaded, receive_loaded, take_off_loaded, Move, lock_send,
  load_send, store_send, load_complete, store_complete, load_receive, store_receive, load_take,
  store_take, State, Step, call_send, call_complete, call_receive, call_return, run, Reach, start,
  later,
}
use basic_windows_drivers.FilterDriver.Interleaving.Counting.{
  sends_of, rcvs_of, holds, total, IsFresh, IsExact, Move-sums, total-middle,
}

-- Calls that do not hold the lock have read nothing.
fresh-idle : (m : Shared) (ps : List Pc) → total holds ps ≡ 0 → All (IsFresh m) ps
fresh-idle m [] e = tt
fresh-idle m (p ∷ ps) e = (fresh_idle p (omega arith), fresh-idle m ps (omega arith))
  where
    fresh_idle : (p : Pc) → holds p ≡ 0 → IsFresh m p
    fresh_idle (count_loaded c j n) e = absurd (omega arith)
    fresh_idle (complete_loaded k n) e = absurd (omega arith)
    fresh_idle (receive_loaded k can n) e = absurd (omega arith)
    fresh_idle (take_off_loaded k n) e = absurd (omega arith)
    fresh_idle _ e = tt

-- What is fresh stays so as long as the counters stay.
fresh-same :
    (m m' : Shared) (ps : List Pc)
    → m'.outstanding_sends ≡ m.outstanding_sends
    → m'.outstanding_rcvs ≡ m.outstanding_rcvs
    → All (IsFresh m) ps
    → All (IsFresh m') ps
fresh-same m m' [] a b f = tt
fresh-same m m' (p ∷ ps) a b (f, fs) = (same p f, fresh-same m m' ps a b fs)
  where
    same : (p : Pc) → IsFresh m p → IsFresh m' p
    same (count_loaded c j n) f = f ∙ sym a
    same (complete_loaded k n) f = f ∙ sym a
    same (receive_loaded k can n) f = f ∙ sym b
    same (take_off_loaded k n) f = f ∙ sym b
    same _ f = tt

-- A move leaves the other calls fresh: it writes a counter only under the lock.
Move-others :
    {m m' : Shared} {p p' : Pc}
    → Move m p m' p'
    → (others : List Pc) → holds p + total holds others ≡ (if m.locked then 1 else 0)
    → All (IsFresh m) others
    → All (IsFresh m') others
Move-others {m} {m'} store_send others one f = fresh-idle m' others (ground arith)
Move-others {m} {m'} store_complete others one f = fresh-idle m' others (ground arith)
Move-others {m} {m'} store_receive others one f = fresh-idle m' others (ground arith)
Move-others {m} {m'} store_take others one f = fresh-idle m' others (ground arith)
Move-others {m} {m'} (lock_send free) others one f = fresh-same m m' others refl refl f
Move-others {m} {m'} _ others one f = fresh-same m m' others refl refl f

Move-IsFresh : {m m' : Shared} {p p' : Pc} → Move m p m' p' → IsFresh m' p'
Move-IsFresh load_send = refl
Move-IsFresh load_complete = refl
Move-IsFresh load_receive = refl
Move-IsFresh load_take = refl
Move-IsFresh _ = tt

All-without :
    (P : Pc → Type 0) (xs ys : List Pc) (p : Pc) → All P (xs ++ (p ∷ ys)) → P p × All P (xs ++ ys)
All-without P [] ys p a = a
All-without P (x ∷ xs) ys p (q, a) = let (own, rest) = All-without P xs ys p a in (own, (q, rest))

All-with :
    (P : Pc → Type 0) (xs ys : List Pc) (p : Pc) → P p → All P (xs ++ ys) → All P (xs ++ (p ∷ ys))
All-with P [] ys p own a = (own, a)
All-with P (x ∷ xs) ys p own (q, a) = (q, All-with P xs ys p own a)

Move-IsExact :
    {m m' : Shared} {p p' : Pc} (before after : List Pc)
    → Move m p m' p'
    → IsExact m (before ++ (p ∷ after))
    → IsExact m' (before ++ (p' ∷ after))
Move-IsExact {m} {m'} {p} {p'} before after move e =
    let others = before ++ after in
    let s = total-middle sends_of before after in
    let r = total-middle rcvs_of before after in
    let h = total-middle holds before after in
    let (own, fresh) = All-without (IsFresh m) before after p e.fresh in
    let one = sym (h p) ∙ e.one in
    let (sends, rcvs, one') =
      Move-sums move own (total sends_of others) (total rcvs_of others) (total holds others)
        (rw (← s p) e.sends) (rw (← r p) e.rcvs) one in
    record {
      sends = rw (s p') sends;
      rcvs = rw (r p') rcvs;
      one = h p' ∙ one';
      fresh =
          All-with (IsFresh m') before after p' (Move-IsFresh move)
            (Move-others move others one fresh);
    }

-- Every step keeps the counters exact.
pub Step-IsExact : {s t : State} → Step s t → IsExact s.shared s.calls → IsExact t.shared t.calls
Step-IsExact {s} (call_send k) e = record {
  sends = omega (arith, e.sends);
  rcvs = omega (arith, e.rcvs);
  one = ground (arith, e.one);
  fresh = (tt, e.fresh);
}
Step-IsExact {s} (call_complete k enough) e = record {
  sends = omega (arith, e.sends);
  rcvs = omega (arith, e.rcvs);
  one = ground (arith, e.one);
  fresh = (
    tt,
    fresh-same s.shared (record (s.shared) { below = s.shared.below - k }) s.calls refl refl
        e.fresh,
  );
}
Step-IsExact {s} (call_receive k can) e = record {
  sends = omega (arith, e.sends);
  rcvs = omega (arith, e.rcvs);
  one = ground (arith, e.one);
  fresh = (tt, e.fresh);
}
Step-IsExact {s} (call_return k enough) e = record {
  sends = omega (arith, e.sends);
  rcvs = omega (arith, e.rcvs);
  one = ground (arith, e.one);
  fresh = (
    tt,
    fresh-same s.shared (record (s.shared) { above = s.shared.above - k }) s.calls refl refl
        e.fresh,
  );
}
Step-IsExact {s} (run before after is move) e =
    Move-IsExact before after move (subst (IsExact s.shared) is e)

pub Reach-IsExact : {s t : State} → Reach s t → IsExact s.shared s.calls → IsExact t.shared t.calls
Reach-IsExact start e = e
Reach-IsExact (later r step) e = Step-IsExact step (Reach-IsExact r e)

-- A module that has just been attached, before any call.
abbrev pub quiet : State
quiet = record {
  shared = record {
    locked = false;
    outstanding_sends = 0;
    outstanding_rcvs = 0;
    below = 0;
    above = 0;
  };
  calls = [];
}

pub quiet-IsExact : IsExact quiet.shared quiet.calls
quiet-IsExact = record { sends = refl; rcvs = refl; one = refl; fresh = tt }

-- A subtraction that a call is about to make does not wrap.
abbrev pub IsCovered : Pc → Type 0
IsCovered (complete_loaded k n) = k ≤ n
IsCovered (take_off_loaded k n) = k ≤ n
IsCovered _ = Unit

fresh-IsCovered :
    (m : Shared) (ps : List Pc)
    → All (IsFresh m) ps
    → total sends_of ps ≤ m.outstanding_sends
    → total rcvs_of ps ≤ m.outstanding_rcvs
    → All IsCovered ps
fresh-IsCovered m [] f a b = tt
fresh-IsCovered m (p ∷ ps) (f, fs) a b =
    (covered p f (omega arith) (omega arith), fresh-IsCovered m ps fs (omega arith) (omega arith))
  where
    covered :
        (p : Pc)
        → IsFresh m p
        → sends_of p ≤ m.outstanding_sends
        → rcvs_of p ≤ m.outstanding_rcvs
        → IsCovered p
    covered (complete_loaded k n) f a b = omega arith
    covered (take_off_loaded k n) f a b = omega arith
    covered _ f a b = tt

-- However the calls of the handlers are interleaved, from a module that has no call and nothing on its
-- way: at most one call holds the lock at any time; and as long as less than 2 ^ 32 sent and less than 2 ^
-- 32 received NBLs are on their way, OutstandingSends is the number of sent NBLs that are with the layers
-- below or that a call has counted and has not passed down, or has to take off, OutstandingRcvs is so for
-- the layers above, and no subtraction that a call is about to make wraps.
pub Reach-outstanding :
    (t : State)
    → Reach quiet t
    → t.shared.below + total sends_of t.calls < ulong_mod
    → t.shared.above + total rcvs_of t.calls < ulong_mod
    → (total holds t.calls ≤ 1)
      × (t.shared.outstanding_sends ≡ t.shared.below + total sends_of t.calls)
      × (t.shared.outstanding_rcvs ≡ t.shared.above + total rcvs_of t.calls)
      × All IsCovered t.calls
Reach-outstanding t r few few' =
    let e = Reach-IsExact r quiet-IsExact in
    (
      ground (arith, e.one),
      omega (arith, e.sends),
      omega (arith, e.rcvs),
      fresh-IsCovered t.shared t.calls e.fresh (omega (arith, e.sends)) (omega (arith, e.rcvs)),
    )
