-- ===== src/FilterDriver/Forwarding.antt =====
-- What the data path of src/FilterDriver/main.cpp does with the chains that it is given, as NDIS
-- sees it: the trace without the lock and without the module's own fields.
use basic_windows_drivers.Base.{
  ℕ, ◌≡◌, refl, ap, Bool, not, ◌&&◌, List, [], ◌∷◌, ◌++◌, map, if◌then◌else◌, All, arith,
}
use basic_windows_drivers.FilterDriver.Ndis.{
  NdisStatus, Nbl, NdisFlags, Action, is_running, acquire_lock, release_lock, write_state,
  write_outstanding_sends, write_outstanding_rcvs, send_net_buffer_lists,
  send_net_buffer_lists_complete, indicate_receive_net_buffer_lists, return_net_buffer_lists,
}
use basic_windows_drivers.FilterDriver.Module.{World}
use basic_windows_drivers.FilterDriver.DataPath.{
  fail_nbls, add_sends, track_and_send, filter_send_net_buffer_lists,
  filter_send_net_buffer_lists_complete, filter_receive_net_buffer_lists,
  filter_return_net_buffer_lists,
}

abbrev pub ndis_calls : List Action → List Action
ndis_calls [] = []
ndis_calls (acquire_lock _ ∷ trace) = ndis_calls trace
ndis_calls (release_lock _ ∷ trace) = ndis_calls trace
ndis_calls (write_state _ ∷ trace) = ndis_calls trace
ndis_calls (write_outstanding_sends _ ∷ trace) = ndis_calls trace
ndis_calls (write_outstanding_rcvs _ ∷ trace) = ndis_calls trace
ndis_calls (call ∷ trace) = call ∷ ndis_calls trace

-- A failed chain holds the packets that it was, in order, each with the status that says that the
-- module is paused.
fail_nbls-packet :
    (nbls : List Nbl)
    → map (λ (n : Nbl). n.packet) (fail_nbls nbls) ≡ map (λ (n : Nbl). n.packet) nbls
unfolding fail_nbls
fail_nbls-packet [] = refl
fail_nbls-packet (nbl ∷ nbls) = ap (◌∷◌ nbl.packet) (fail_nbls-packet nbls)

fail_nbls-status :
    (nbls : List Nbl) → All (λ (n : Nbl). n.status ≡ NdisStatus.paused) (fail_nbls nbls)
unfolding fail_nbls
fail_nbls-status [] = tt
fail_nbls-status (nbl ∷ nbls) = (refl, fail_nbls-status nbls)

add_sends-silent :
    (nbls : List Nbl) (w : World)
    → (ndis_calls (add_sends nbls w).1.trace ≡ ndis_calls w.trace)
      × ((add_sends nbls w).1.filter.filter_handle ≡ w.filter.filter_handle)
unfolding add_sends
add_sends-silent [] w = (refl, refl)
add_sends-silent (nbl ∷ nbls) w = add_sends-silent nbls _

module _ (flags : NdisFlags) where
  open flags use {
    test_send_at_dispatch_level, send_complete_flags_dispatch_level, test_receive_cannot_pend,
    test_receive_at_dispatch_level, set_return_flag, return_flags_dispatch_level,
  }

  track_and_send-calls :
      (nbls : List Nbl) (port send_flags : ℕ) (form : Bool) (w : World)
      → ndis_calls (track_and_send flags nbls port send_flags form w).1.trace
        ≡ send_net_buffer_lists w.filter.filter_handle nbls port send_flags ∷ ndis_calls w.trace
  unfolding track_and_send
  track_and_send-calls nbls port send_flags form w =
      ground (arith, add_sends-silent nbls (record w { trace = acquire_lock form ∷ w.trace }))

  -- A send is answered by exactly one call. A debug build completes it, if the module is not
  -- running: the same packets in the same order, each with the paused status, and the dispatch
  -- level handed on. In every other case the chain goes down as it is.
  pub send_forwards :
      (dbg : Bool) (nbls : List Nbl) (port send_flags : ℕ) (w : World)
      → let w' = (filter_send_net_buffer_lists flags dbg nbls port send_flags w).1 in
        (map (λ (n : Nbl). n.packet) (fail_nbls nbls) ≡ map (λ (n : Nbl). n.packet) nbls)
        × All (λ (n : Nbl). n.status ≡ NdisStatus.paused) (fail_nbls nbls)
        × (ndis_calls w'.trace
            ≡ (if dbg && not (is_running w.filter.state)
                then send_net_buffer_lists_complete w.filter.filter_handle (fail_nbls nbls) (
                    if test_send_at_dispatch_level send_flags
                    then send_complete_flags_dispatch_level
                    else 0)
                else send_net_buffer_lists w.filter.filter_handle nbls port send_flags)
              ∷ ndis_calls w.trace)
  unfolding filter_send_net_buffer_lists
  send_forwards dbg nbls port send_flags w =
      let form = test_send_at_dispatch_level send_flags in
      let tested = record w { trace = release_lock form ∷ acquire_lock form ∷ w.trace } in
      (
        fail_nbls-packet nbls,
        fail_nbls-status nbls,
        ground (
          arith,
          track_and_send-calls nbls port send_flags form w,
          track_and_send-calls nbls port send_flags form tested,
        ),
      )

  -- The calls by which a receive is answered, oldest last.
  abbrev pub receive_answer : Bool → List Nbl → ℕ → ℕ → ℕ → World → List Action
  receive_answer dbg nbls port count receive_flags w =
      if dbg && not (is_running w.filter.state)
      then (if test_receive_cannot_pend receive_flags
          then []
          else return_net_buffer_lists w.filter.filter_handle nbls (
              if test_receive_at_dispatch_level receive_flags
              then set_return_flag 0 return_flags_dispatch_level
              else 0)
            ∷ [])
      else indicate_receive_net_buffer_lists w.filter.filter_handle nbls port count receive_flags
        ∷ []

  -- A receive is answered by at most one call. A debug build keeps a chain from the layers above, if
  -- the module is not running: it returns the chain if that may pend, and makes no call if the chain
  -- comes back by itself. In every other case the chain is indicated up as it is. A chain that comes
  -- back, completed or returned, goes on as it is, by one call.
  pub receive_forwards :
      (dbg : Bool) (nbls : List Nbl) (port count receive_flags other_flags : ℕ) (w : World)
      → (ndis_calls
            (filter_receive_net_buffer_lists flags dbg nbls port count receive_flags w).1.trace
          ≡ receive_answer dbg nbls port count receive_flags w ++ ndis_calls w.trace)
        × (ndis_calls (filter_send_net_buffer_lists_complete flags nbls other_flags w).1.trace
            ≡ send_net_buffer_lists_complete w.filter.filter_handle nbls other_flags
              ∷ ndis_calls w.trace)
        × (ndis_calls (filter_return_net_buffer_lists flags nbls other_flags w).1.trace
            ≡ return_net_buffer_lists w.filter.filter_handle nbls other_flags ∷ ndis_calls w.trace)
  unfolding filter_receive_net_buffer_lists filter_send_net_buffer_lists_complete
      filter_return_net_buffer_lists
  receive_forwards dbg nbls port count receive_flags other_flags w =
      (ground (arith, flags.can_pend-cannot_pend receive_flags), ground arith, ground arith)
