-- ===== src/FilterDriver/Receives.antt =====
-- The counter of outstanding receives of src/FilterDriver/main.cpp, against what crossed the
-- module's edge to the layer above.
use basic_windows_drivers.Base.{
  ℕ, ◌+◌, ◌-◌, ◌≤◌, ◌<◌, ◌≡◌, refl, ◌∙◌, Bool, true, List, [], ◌∷◌, if◌then◌else◌, length, arith,
}
use basic_windows_drivers.Base.Word.{add32, sub32-add, sub32-lt, add32-lt, ulong, ulong_mod}
use basic_windows_drivers.FilterDriver.Ndis.{
  Nbl, NdisFlags, Action, acquire_lock, release_lock, indicate_receive_net_buffer_lists,
}
use basic_windows_drivers.FilterDriver.Module.{World}
use basic_windows_drivers.FilterDriver.DataPath.{
  count_nbls, add_sends, track_and_send, filter_send_net_buffer_lists,
  filter_send_net_buffer_lists_complete, filter_receive_net_buffer_lists,
  filter_return_net_buffer_lists,
}
use basic_windows_drivers.FilterDriver.Control.{
  filter_pause, filter_restart, filter_device_pnp_event_notify, filter_set_module_options,
}
use basic_windows_drivers.FilterDriver.Run.{Event, send, receive, return, handle, run}
use basic_windows_drivers.FilterDriver.Sends.{count_nbls-length, handle-track}

-- How many NBLs the layer below has been given back.
abbrev pub returns : List Event → ℕ
returns [] = 0
returns (return nbls _ ∷ events) = length nbls + returns events
returns (_ ∷ events) = returns events

returns-cons :
    (event : Event) (events : List Event)
    → returns (event ∷ events) ≡ returns (event ∷ []) + returns events
returns-cons (return nbls f) events = omega arith
returns-cons _ events = omega arith

module _ (flags : NdisFlags) where
  open flags use {test_receive_cannot_pend}

  -- How many NBLs were indicated up and may be kept there until they are returned. Those indicated
  -- with NDIS_RECEIVE_FLAGS_RESOURCES come back with the call.
  abbrev pub kept_above : List Action → ℕ
  kept_above [] = 0
  kept_above (indicate_receive_net_buffer_lists _ _ _ count f ∷ trace) =
      (if test_receive_cannot_pend f then 0 else count) + kept_above trace
  kept_above (_ ∷ trace) = kept_above trace

  abbrev pub RcvsBalance : ℕ → World → World → Type 0
  RcvsBalance done w w' =
      ulong (w'.filter.outstanding_rcvs + done + kept_above w.trace)
      ≡ ulong (w.filter.outstanding_rcvs + kept_above w'.trace)

  add_sends-kept_above :
      (nbls : List Nbl) (w : World)
      → (kept_above (add_sends nbls w).1.trace ≡ kept_above w.trace)
        × ((add_sends nbls w).1.filter.outstanding_rcvs ≡ w.filter.outstanding_rcvs)
  unfolding add_sends
  add_sends-kept_above [] w = (refl, refl)
  add_sends-kept_above (nbl ∷ nbls) w = add_sends-kept_above nbls _

  track_and_send-kept_above :
      (nbls : List Nbl) (port send_flags : ℕ) (form : Bool) (w : World)
      → let w' = (track_and_send flags nbls port send_flags form w).1 in
        (kept_above w'.trace ≡ kept_above w.trace)
        × (w'.filter.outstanding_rcvs ≡ w.filter.outstanding_rcvs)
  unfolding track_and_send
  track_and_send-kept_above nbls port send_flags form w =
      ground (arith, add_sends-kept_above nbls (record w { trace = acquire_lock form ∷ w.trace }))

  -- A send does not touch the receive side.
  send-kept_above :
      (dbg : Bool) (nbls : List Nbl) (port send_flags : ℕ) (w : World)
      → let w' = (filter_send_net_buffer_lists flags dbg nbls port send_flags w).1 in
        (kept_above w'.trace ≡ kept_above w.trace)
        × (w'.filter.outstanding_rcvs ≡ w.filter.outstanding_rcvs)
  unfolding filter_send_net_buffer_lists
  send-kept_above dbg nbls port send_flags w =
      let form = flags.test_send_at_dispatch_level send_flags in
      let tested = record w { trace = release_lock form ∷ acquire_lock form ∷ w.trace } in
      ground (
        arith,
        track_and_send-kept_above nbls port send_flags form w,
        track_and_send-kept_above nbls port send_flags form tested,
      )

  receive-balance :
      (dbg : Bool) (nbls : List Nbl) (port count receive_flags : ℕ) (w : World)
      → w.filter.track_receives ≡ true
      → RcvsBalance 0 w
          (filter_receive_net_buffer_lists flags dbg nbls port count receive_flags w).1
  unfolding filter_receive_net_buffer_lists add32
  receive-balance dbg nbls port count receive_flags w t =
      ground (arith, sub32-add (add32 w.filter.outstanding_rcvs count) count)

  return-balance :
      (nbls : List Nbl) (return_flags : ℕ) (w : World)
      → w.filter.track_receives ≡ true
      → RcvsBalance (length nbls) w (filter_return_net_buffer_lists flags nbls return_flags w).1
  unfolding filter_return_net_buffer_lists
  return-balance nbls return_flags w t =
      ground
        (arith, count_nbls-length 0 nbls, sub32-add w.filter.outstanding_rcvs (count_nbls 0 nbls))

  handle-balance :
      (dbg : Bool) (event : Event) (w : World)
      → w.filter.track_receives ≡ true
      → RcvsBalance (returns (event ∷ [])) w (handle flags dbg event w)
  unfolding handle filter_send_net_buffer_lists_complete filter_pause filter_restart
      filter_device_pnp_event_notify filter_set_module_options
  handle-balance dbg (receive nbls port n f) w t =
      omega (arith, receive-balance dbg nbls port n f w t)
  handle-balance dbg (return nbls f) w t = omega (arith, return-balance nbls f w t)
  handle-balance dbg (send nbls port f) w t = omega (arith, send-kept_above dbg nbls port f w)
  handle-balance dbg _ w t = ground arith

  -- Over any sequence of calls a module that tracks receives keeps its books: its counter, the NBLs
  -- returned to it and those left above before balance the counter before and those left above
  -- after, on ULONG.
  pub run-RcvsBalance :
      (dbg : Bool) (events : List Event) (w : World)
      → w.filter.track_receives ≡ true
      → RcvsBalance (returns events) w (run flags dbg events w)
  unfolding run
  run-RcvsBalance dbg [] w t = omega arith
  run-RcvsBalance dbg (event ∷ events) w t =
      let w' = handle flags dbg event w in
      let t' : w'.filter.track_receives ≡ true = (handle-track flags dbg event w).1 ∙ t in
      omega (
        arith,
        handle-balance dbg event w t,
        run-RcvsBalance dbg events w' t',
        returns-cons event events,
      )

  handle-range :
      (dbg : Bool) (event : Event) (w : World)
      → w.filter.outstanding_rcvs < ulong_mod
      → (handle flags dbg event w).filter.outstanding_rcvs < ulong_mod
  unfolding handle filter_send_net_buffer_lists_complete filter_receive_net_buffer_lists
      filter_return_net_buffer_lists filter_pause filter_restart filter_device_pnp_event_notify
      filter_set_module_options
  handle-range dbg (receive nbls port n f) w h =
      ground (
        arith,
        add32-lt w.filter.outstanding_rcvs n,
        sub32-lt (add32 w.filter.outstanding_rcvs n) n,
      )
  handle-range dbg (return nbls f) w h =
      ground (arith, sub32-lt w.filter.outstanding_rcvs (count_nbls 0 nbls))
  handle-range dbg (send nbls port f) w h = omega (arith, send-kept_above dbg nbls port f w)
  handle-range dbg _ w h = ground arith

  run-range :
      (dbg : Bool) (events : List Event) (w : World)
      → w.filter.outstanding_rcvs < ulong_mod
      → (run flags dbg events w).filter.outstanding_rcvs < ulong_mod
  unfolding run
  run-range dbg [] w h = h
  run-range dbg (event ∷ events) w h =
      run-range dbg events (handle flags dbg event w) (handle-range dbg event w h)

  -- The counter is exact. From a module that tracks receives and has none outstanding, after any
  -- sequence of calls in which no more is returned than was left above, and in which less than
  -- 2 ^ 32 NBLs are above at the end, it is the number left above and not returned.
  pub run-outstanding_rcvs :
      (dbg : Bool) (events : List Event) (w : World)
      → w.filter.track_receives ≡ true
      → w.filter.outstanding_rcvs ≡ 0
      → kept_above w.trace ≡ 0
      → returns events ≤ kept_above (run flags dbg events w).trace
      → kept_above (run flags dbg events w).trace - returns events < ulong_mod
      → (run flags dbg events w).filter.outstanding_rcvs
        ≡ kept_above (run flags dbg events w).trace - returns events
  run-outstanding_rcvs dbg events w t z p c b =
      omega (arith, run-RcvsBalance dbg events w t, run-range dbg events w (omega arith))
