-- ===== src/FilterDriver/Interleaving/Alone.antt =====
-- The steps of one call on their own, against the handlers of FilterDriver.DataPath: the steps render the
-- same code, cut at each shared access.
use basic_windows_drivers.Base.{
  ℕ, zero, suc, ◌+◌, ◌≡◌, refl, ◌∙◌, sym, ap, subst, Bool, true, false, List, [], ◌∷◌, length,
  if◌then◌else◌, arith,
}
use basic_windows_drivers.Base.Word.{add32, sub32}
use basic_windows_drivers.FilterDriver.Ndis.{Nbl, NdisFlags, acquire_lock}
use basic_windows_drivers.FilterDriver.Module.{World, set_outstanding_sends}
use basic_windows_drivers.FilterDriver.DataPath.{
  add_sends, track_and_send, filter_send_net_buffer_lists, filter_send_net_buffer_lists_complete,
  filter_receive_net_buffer_lists, track_and_indicate, filter_return_net_buffer_lists,
}
use basic_windows_drivers.FilterDriver.Sends.{count_nbls-length}
use basic_windows_drivers.FilterDriver.Interleaving.{
  Shared, Pc, sending, counting, completing, receiving, giving_back, taking_off, finished, Move,
  lock_send, load_send, store_send, unlock_send, pass, lock_complete, load_complete, store_complete,
  unlock_complete, hand_back, lock_receive, load_receive, store_receive, unlock_receive,
  indicate_kept, indicate_back, give_back, lock_take, load_take, store_take, unlock_take,
}

-- Several steps of one call, with no step of another between them.
pub data Moves : Shared → Pc → Shared → Pc → Type 0 where
  here : {m : Shared} {p : Pc} → Moves m p m p
  and_then :
      {m m' m'' : Shared} {p p' p'' : Pc} → Move m p m' p' → Moves m' p' m'' p'' → Moves m p m'' p''

-- The number that a chain of `j` NBLs makes of the counter.
abbrev counted_from : ℕ → ℕ → ℕ
counted_from n zero = n
counted_from n (suc j) = counted_from (add32 n 1) j

counting-Moves :
    (j c k : ℕ) (m : Shared)
    → c + j ≡ k
    → Moves m
        (counting c j)
        (record m {
          locked = false;
          outstanding_sends = counted_from m.outstanding_sends j;
          below = m.below + k;
        })
        finished
counting-Moves zero c k m e =
    subst
      (λ i. Moves m (counting c zero) (record m { locked = false; below = m.below + i }) finished)
      (omega arith) (and_then (unlock_send refl) (and_then pass here))
counting-Moves (suc j) c k m e = and_then load_send (
    and_then store_send (
      counting-Moves j (suc c) k (record m { outstanding_sends = add32 m.outstanding_sends 1 })
        (omega arith)))

add_sends-counted :
    (nbls : List Nbl) (w : World)
    → (add_sends nbls w).1.filter.outstanding_sends
      ≡ counted_from w.filter.outstanding_sends (length nbls)
unfolding add_sends
add_sends-counted [] w = refl
add_sends-counted (nbl ∷ nbls) w =
    add_sends-counted nbls (set_outstanding_sends (add32 w.filter.outstanding_sends 1) w).1

-- Taking the NBLs off at the end of a call.
taking_off-Moves :
    (k : ℕ) (m : Shared)
    → m.locked ≡ false
    → Moves m
        (taking_off k)
        (record m { locked = false; outstanding_rcvs = sub32 m.outstanding_rcvs k })
        finished
taking_off-Moves k m free =
    and_then (lock_take free) (and_then load_take (and_then store_take (and_then unlock_take here)))

receiving-Moves :
    (k : ℕ) (can : Bool) (m : Shared)
    → m.locked ≡ false
    → Moves m
        (receiving k can)
        (record m {
          locked = false;
          outstanding_rcvs =
              if can then add32 m.outstanding_rcvs k else sub32 (add32 m.outstanding_rcvs k) k;
          above = if can then m.above + k else m.above;
        })
        finished
receiving-Moves k true m free = and_then (lock_receive free) (
    and_then load_receive
      (and_then store_receive (and_then unlock_receive (and_then (indicate_kept refl) here))))
receiving-Moves k false m free =
    let m' = record m { locked = false; outstanding_rcvs = add32 m.outstanding_rcvs k } in
    and_then (lock_receive free) (
      and_then load_receive (
        and_then store_receive
          (and_then unlock_receive (and_then (indicate_back refl) (taking_off-Moves k m' refl)))))

-- The counters that the handlers leave, written with the length of the chain.
module _ (flags : NdisFlags) where
  send-counter :
      (nbls : List Nbl) (port send_flags : ℕ) (w : World)
      → w.filter.track_sends ≡ true
      → counted_from w.filter.outstanding_sends (length nbls)
        ≡ ((filter_send_net_buffer_lists flags false nbls port send_flags w).1.filter
          ).outstanding_sends
  unfolding filter_send_net_buffer_lists track_and_send
  send-counter nbls port send_flags w tracked = ground (
    arith,
    tracked,
    add_sends-counted nbls (record w {
      trace = acquire_lock (flags.test_send_at_dispatch_level send_flags) ∷ w.trace;
    }),
  )

  complete-counter :
      (nbls : List Nbl) (complete_flags : ℕ) (w : World)
      → w.filter.track_sends ≡ true
      → sub32 w.filter.outstanding_sends (length nbls)
        ≡ ((filter_send_net_buffer_lists_complete flags nbls complete_flags w).1.filter
          ).outstanding_sends
  unfolding filter_send_net_buffer_lists_complete sub32
  complete-counter nbls complete_flags w tracked = ground (arith, tracked, count_nbls-length 0 nbls)

  return-counter :
      (nbls : List Nbl) (return_flags : ℕ) (w : World)
      → w.filter.track_receives ≡ true
      → sub32 w.filter.outstanding_rcvs (length nbls)
        ≡ (filter_return_net_buffer_lists flags nbls return_flags w).1.filter.outstanding_rcvs
  unfolding filter_return_net_buffer_lists sub32
  return-counter nbls return_flags w tracked = ground (arith, tracked, count_nbls-length 0 nbls)

  receive-counter :
      (nbls : List Nbl) (port count receive_flags : ℕ) (w : World)
      → w.filter.track_receives ≡ true
      → (if flags.test_receive_can_pend receive_flags
          then add32 w.filter.outstanding_rcvs count
          else sub32 (add32 w.filter.outstanding_rcvs count) count)
        ≡ (filter_receive_net_buffer_lists flags false nbls port count receive_flags
            w).1.filter.outstanding_rcvs
  unfolding filter_receive_net_buffer_lists track_and_indicate
  receive-counter nbls port count receive_flags w tracked =
      ground (arith, tracked, flags.can_pend-cannot_pend receive_flags)

  -- A call's steps on their own, from a free lock and the counters of the module `w`, lead to its end.
  -- They leave the counter that the handler leaves, in the retail build of a module that tracks its sends
  -- and receives: of a send and of a completion OutstandingSends, of a receive and of a return
  -- OutstandingRcvs. The lock is then free; a send has passed its NBLs down, a receive has passed up those
  -- that may be kept, and nothing else has changed.
  pub handlers-Moves :
      (nbls : List Nbl) (port count flag_bits : ℕ) (w : World) (m : Shared)
      → w.filter.track_sends ≡ true
      → w.filter.track_receives ≡ true
      → w.filter.outstanding_sends ≡ m.outstanding_sends
      → w.filter.outstanding_rcvs ≡ m.outstanding_rcvs
      → m.locked ≡ false
      → let sent = (filter_send_net_buffer_lists flags false nbls port flag_bits w).1 in
        let completed = (filter_send_net_buffer_lists_complete flags nbls flag_bits w).1 in
        let received =
          (filter_receive_net_buffer_lists flags false nbls port count flag_bits w).1 in
        let returned = (filter_return_net_buffer_lists flags nbls flag_bits w).1 in
        let can = flags.test_receive_can_pend flag_bits in
        Moves m
          (sending (length nbls))
          (record m {
            locked = false;
            outstanding_sends = sent.filter.outstanding_sends;
            below = m.below + length nbls;
          })
          finished
        × Moves m
            (completing (length nbls))
            (record m { locked = false; outstanding_sends = completed.filter.outstanding_sends })
            finished
        × Moves m
            (receiving count can)
            (record m {
              locked = false;
              outstanding_rcvs = received.filter.outstanding_rcvs;
              above = if can then m.above + count else m.above;
            })
            finished
        × Moves m
            (giving_back (length nbls))
            (record m { locked = false; outstanding_rcvs = returned.filter.outstanding_rcvs })
            finished
  handlers-Moves nbls port count flag_bits w m t t' s r free =
      let k = length nbls in
      (
        subst
            (λ n.
              Moves m (sending k)
                (record m { locked = false; outstanding_sends = n; below = m.below + k }) finished)
            (ap (λ n. counted_from n k) (sym s) ∙ send-counter nbls port flag_bits w t)
            (and_then (lock_send free)
              (counting-Moves k 0 k (record m { locked = true }) (omega arith))),
        subst
            (λ n.
              Moves m (completing k) (record m { locked = false; outstanding_sends = n }) finished)
            (ap (λ n. sub32 n k) (sym s) ∙ complete-counter nbls flag_bits w t)
            (and_then (lock_complete free) (
              and_then load_complete
                (and_then store_complete (and_then unlock_complete (and_then hand_back here))))),
        subst
            (λ n.
              Moves m (receiving count (flags.test_receive_can_pend flag_bits))
                (record m {
                  locked = false;
                  outstanding_rcvs = n;
                  above =
                      if flags.test_receive_can_pend flag_bits then m.above + count else m.above;
                })
                finished)
            (ap
                (λ n.
                  if flags.test_receive_can_pend flag_bits
                  then add32 n count
                  else sub32 (add32 n count) count)
                (sym r)
              ∙ receive-counter nbls port count flag_bits w t')
            (receiving-Moves count (flags.test_receive_can_pend flag_bits) m free),
        subst
            (λ n.
              Moves m (giving_back k) (record m { locked = false; outstanding_rcvs = n }) finished)
            (ap (λ n. sub32 n k) (sym r) ∙ return-counter nbls flag_bits w t')
            (and_then give_back (taking_off-Moves k m free)),
      )
