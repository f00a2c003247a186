-- ===== src/FilterDriver/Sends.antt =====
-- The counter of outstanding sends of src/FilterDriver/main.cpp, against what crossed
-- the module's edge to the layer below.
use basic_windows_drivers.Base.{
  ℕ, ◌+◌, ◌-◌, ◌≤◌, ◌<◌, ◌≡◌, refl, ◌∙◌, Bool, true, List, [], ◌∷◌, length, arith,
}
use basic_windows_drivers.Base.Word.{add32, sub32-add, sub32-lt, ulong, ulong_mod}
use basic_windows_drivers.FilterDriver.Ndis.{
  Nbl, NdisFlags, Action, acquire_lock, release_lock, send_net_buffer_lists,
}
use basic_windows_drivers.FilterDriver.Module.{World, set_outstanding_sends}
use basic_windows_drivers.FilterDriver.DataPath.{
  count_nbls, add_sends, track_and_send, filter_send_net_buffer_lists,
  filter_send_net_buffer_lists_complete, filter_receive_net_buffer_lists,
  filter_return_net_buffer_lists,
}
use basic_windows_drivers.FilterDriver.Control.{
  filter_pause, filter_restart, filter_device_pnp_event_notify, filter_set_module_options,
}
use basic_windows_drivers.FilterDriver.Run.{Event, send, send_complete, handle, run}

-- How many NBLs the module has passed down to be sent.
abbrev pub passed_down : List Action → ℕ
passed_down [] = 0
passed_down (send_net_buffer_lists _ nbls _ _ ∷ trace) = length nbls + passed_down trace
passed_down (_ ∷ trace) = passed_down trace

-- How many NBLs the layer below has completed.
abbrev pub completions : List Event → ℕ
completions [] = 0
completions (send_complete nbls _ ∷ events) = length nbls + completions events
completions (_ ∷ events) = completions events

-- One round of the loop of a send.
abbrev counted : World → World
counted w = (set_outstanding_sends (add32 w.filter.outstanding_sends 1) w).1

completions-cons :
    (event : Event) (events : List Event)
    → completions (event ∷ events) ≡ completions (event ∷ []) + completions events
completions-cons (send_complete nbls f) events = omega arith
completions-cons _ events = omega arith

pub count_nbls-length :
    (n : ℕ) (nbls : List Nbl) → ulong (count_nbls n nbls) ≡ ulong (n + length nbls)
unfolding count_nbls add32
count_nbls-length n [] = omega arith
count_nbls-length n (nbl ∷ nbls) = omega (arith, count_nbls-length (add32 n 1) nbls)

add_sends-count :
    (nbls : List Nbl) (w : World)
    → ulong (add_sends nbls w).1.filter.outstanding_sends
      ≡ ulong (w.filter.outstanding_sends + length nbls)
unfolding add_sends add32
add_sends-count [] w = omega arith
add_sends-count (nbl ∷ nbls) w = ground (arith, add_sends-count nbls (counted w))

add_sends-rest :
    (nbls : List Nbl) (w : World)
    → (passed_down (add_sends nbls w).1.trace ≡ passed_down w.trace)
      × ((add_sends nbls w).1.filter.track_sends ≡ w.filter.track_sends)
      × ((add_sends nbls w).1.filter.track_receives ≡ w.filter.track_receives)
      × ((add_sends nbls w).1.filter.outstanding_rcvs ≡ w.filter.outstanding_rcvs)
unfolding add_sends
add_sends-rest [] w = (refl, refl, refl, refl)
add_sends-rest (nbl ∷ nbls) w = add_sends-rest nbls (counted w)

add_sends-range :
    (nbls : List Nbl) (w : World)
    → w.filter.outstanding_sends < ulong_mod
    → (add_sends nbls w).1.filter.outstanding_sends < ulong_mod
unfolding add_sends add32
add_sends-range [] w h = h
add_sends-range (nbl ∷ nbls) w h = add_sends-range nbls (counted w) (omega arith)

-- The module's counter has gained what was passed down and lost `done` completions, on ULONG.
abbrev pub SendsBalance : ℕ → World → World → Type 0
SendsBalance done w w' =
    ulong (w'.filter.outstanding_sends + done + passed_down w.trace)
    ≡ ulong (w.filter.outstanding_sends + passed_down w'.trace)

module _ (flags : NdisFlags) where
  track_and_send-balance :
      (nbls : List Nbl) (port send_flags : ℕ) (form : Bool) (w : World)
      → w.filter.track_sends ≡ true
      → SendsBalance 0 w (track_and_send flags nbls port send_flags form w).1
  unfolding track_and_send
  track_and_send-balance nbls port send_flags form w t = ground (
    arith,
    add_sends-count nbls (record w { trace = acquire_lock form ∷ w.trace }),
    add_sends-rest nbls (record w { trace = acquire_lock form ∷ w.trace }),
  )

  track_and_send-track :
      (nbls : List Nbl) (port send_flags : ℕ) (form : Bool) (w : World)
      → let w' = (track_and_send flags nbls port send_flags form w).1 in
        (w'.filter.track_sends ≡ w.filter.track_sends)
        × (w'.filter.track_receives ≡ w.filter.track_receives)
        × (w'.filter.outstanding_rcvs ≡ w.filter.outstanding_rcvs)
  unfolding track_and_send
  track_and_send-track nbls port send_flags form w =
      ground (arith, add_sends-rest nbls (record w { trace = acquire_lock form ∷ w.trace }))

  track_and_send-range :
      (nbls : List Nbl) (port send_flags : ℕ) (form : Bool) (w : World)
      → w.filter.outstanding_sends < ulong_mod
      → (track_and_send flags nbls port send_flags form w).1.filter.outstanding_sends < ulong_mod
  unfolding track_and_send
  track_and_send-range nbls port send_flags form w h =
      ground (arith, add_sends-range nbls (record w { trace = acquire_lock form ∷ w.trace }))

  send-balance :
      (dbg : Bool) (nbls : List Nbl) (port send_flags : ℕ) (w : World)
      → w.filter.track_sends ≡ true
      → SendsBalance 0 w (filter_send_net_buffer_lists flags dbg nbls port send_flags w).1
  unfolding filter_send_net_buffer_lists
  send-balance dbg nbls port send_flags w t =
      let form = flags.test_send_at_dispatch_level send_flags in
      let tested = record w { trace = release_lock form ∷ acquire_lock form ∷ w.trace } in
      ground (
        arith,
        track_and_send-balance nbls port send_flags form w,
        track_and_send-balance nbls port send_flags form tested,
      )

  send_complete-balance :
      (nbls : List Nbl) (complete_flags : ℕ) (w : World)
      → w.filter.track_sends ≡ true
      → SendsBalance
          (length nbls)
          w
          (filter_send_net_buffer_lists_complete flags nbls complete_flags w).1
  unfolding filter_send_net_buffer_lists_complete
  send_complete-balance nbls complete_flags w t =
      ground
        (arith, count_nbls-length 0 nbls, sub32-add w.filter.outstanding_sends (count_nbls 0 nbls))

  handle-range :
      (dbg : Bool) (event : Event) (w : World)
      → w.filter.outstanding_sends < ulong_mod
      → (handle flags dbg event w).filter.outstanding_sends < ulong_mod
  unfolding handle filter_send_net_buffer_lists filter_send_net_buffer_lists_complete
      filter_receive_net_buffer_lists filter_return_net_buffer_lists filter_pause filter_restart
      filter_device_pnp_event_notify filter_set_module_options
  handle-range dbg (send nbls port f) w h =
      let form = flags.test_send_at_dispatch_level f in
      let tested = record w { trace = release_lock form ∷ acquire_lock form ∷ w.trace } in
      ground (
        arith,
        track_and_send-range nbls port f form w,
        track_and_send-range nbls port f form tested,
      )
  handle-range dbg (send_complete nbls f) w h =
      ground (arith, sub32-lt w.filter.outstanding_sends (count_nbls 0 nbls))
  handle-range dbg _ w h = ground arith

  run-range :
      (dbg : Bool) (events : List Event) (w : World)
      → w.filter.outstanding_sends < ulong_mod
      → (run flags dbg events w).filter.outstanding_sends < ulong_mod
  unfolding run
  run-range dbg [] w h = h
  run-range dbg (event ∷ events) w h =
      run-range dbg events (handle flags dbg event w) (handle-range dbg event w h)

  pub handle-track :
      (dbg : Bool) (event : Event) (w : World)
      → ((handle flags dbg event w).filter.track_sends ≡ w.filter.track_sends)
        × ((handle flags dbg event w).filter.track_receives ≡ w.filter.track_receives)
  unfolding handle filter_send_net_buffer_lists filter_send_net_buffer_lists_complete
      filter_receive_net_buffer_lists filter_return_net_buffer_lists filter_pause filter_restart
      filter_device_pnp_event_notify filter_set_module_options
  handle-track dbg (send nbls port f) w =
      let form = flags.test_send_at_dispatch_level f in
      let tested = record w { trace = release_lock form ∷ acquire_lock form ∷ w.trace } in
      ground (
        arith,
        track_and_send-track nbls port f form w,
        track_and_send-track nbls port f form tested,
      )
  handle-track dbg (send_complete nbls f) w = ground arith
  handle-track dbg _ w = ground arith

  handle-balance :
      (dbg : Bool) (event : Event) (w : World)
      → w.filter.track_sends ≡ true
      → SendsBalance (completions (event ∷ [])) w (handle flags dbg event w)
  unfolding handle filter_receive_net_buffer_lists filter_return_net_buffer_lists filter_pause
      filter_restart filter_device_pnp_event_notify filter_set_module_options
  handle-balance dbg (send nbls port f) w t = send-balance dbg nbls port f w t
  handle-balance dbg (send_complete nbls f) w t = omega (arith, send_complete-balance nbls f w t)
  handle-balance dbg _ w t = ground arith

  -- Over any sequence of calls a module that tracks sends keeps its books: its counter, the NBLs
  -- completed to it and those passed down before balance the counter before and those passed down
  -- after, on ULONG.
  pub run-SendsBalance :
      (dbg : Bool) (events : List Event) (w : World)
      → w.filter.track_sends ≡ true
      → SendsBalance (completions events) w (run flags dbg events w)
  unfolding run
  run-SendsBalance dbg [] w t = omega arith
  run-SendsBalance dbg (event ∷ events) w t =
      let w' = handle flags dbg event w in
      let t' : w'.filter.track_sends ≡ true = (handle-track dbg event w).0 ∙ t in
      omega (
        arith,
        handle-balance dbg event w t,
        run-SendsBalance dbg events w' t',
        completions-cons event events,
      )

  -- The counter is exact. From a module that tracks sends and has none outstanding, after any
  -- sequence of calls in which NDIS completes no more than what was passed down, and in which less
  -- than 2 ^ 32 NBLs are on their way at the end, it is the number passed down and not completed.
  pub run-outstanding_sends :
      (dbg : Bool) (events : List Event) (w : World)
      → w.filter.track_sends ≡ true
      → w.filter.outstanding_sends ≡ 0
      → passed_down w.trace ≡ 0
      → completions events ≤ passed_down (run flags dbg events w).trace
      → passed_down (run flags dbg events w).trace - completions events < ulong_mod
      → (run flags dbg events w).filter.outstanding_sends
        ≡ passed_down (run flags dbg events w).trace - completions events
  run-outstanding_sends dbg events w t z p c b =
      omega (arith, run-SendsBalance dbg events w t, run-range dbg events w (omega arith))
