-- ===== src/FilterDriver/Locking.antt =====
-- The module's spin lock in src/FilterDriver/main.cpp: how its state follows from a trace.
use basic_windows_drivers.Base.{
  ℕ, ◌≡◌, Bool, true, false, List, [], ◌∷◌, Option, if◌then◌else◌, arith,
}
use basic_windows_drivers.FilterDriver.Ndis.{
  NdisStatus, Nbl, NdisFlags, Action, acquire_lock, release_lock, write_state,
  write_outstanding_sends, write_outstanding_rcvs, send_net_buffer_lists,
  send_net_buffer_lists_complete, indicate_receive_net_buffer_lists, return_net_buffer_lists,
  open_configuration, close_configuration, device_pnp_event_notify, write_lookahead_size,
}
use basic_windows_drivers.FilterDriver.Module.{World}
use basic_windows_drivers.FilterDriver.DataPath.{
  add_sends, track_and_send, filter_send_net_buffer_lists, filter_send_net_buffer_lists_complete,
  filter_receive_net_buffer_lists, filter_return_net_buffer_lists,
}
use basic_windows_drivers.FilterDriver.Control.{
  RestartAttributes, filter_pause, filter_restart, filter_device_pnp_event_notify,
  filter_set_module_options,
}
use basic_windows_drivers.FilterDriver.Run.{
  Event, send, send_complete, receive, return, handle, run,
}

-- The lock is free, held through one of the two forms, or the discipline was broken.
pub data LockState : Type 0 where
  free broken : LockState
  held : Bool → LockState

abbrev same_form : Bool → Bool → LockState
same_form true true = free
same_form false false = free
same_form _ _ = broken

abbrev acquired : Bool → LockState → LockState
acquired form free = held form
acquired form _ = broken

abbrev released : Bool → LockState → LockState
released form (held by) = same_form form by
released form _ = broken

abbrev needs_held : LockState → LockState
needs_held (held form) = held form
needs_held _ = broken

abbrev needs_free : LockState → LockState
needs_free free = free
needs_free _ = broken

-- The lock is taken when free and let go in the form in which it was taken, the counters are
-- written under it, and NDIS is called without it. `strict` asks for the lock on `State` too.
abbrev pub lock_step : Bool → Action → LockState → LockState
lock_step strict (acquire_lock form) s = acquired form s
lock_step strict (release_lock form) s = released form s
lock_step strict (write_state _) s = if strict then needs_held s else s
lock_step strict (write_outstanding_sends _) s = needs_held s
lock_step strict (write_outstanding_rcvs _) s = needs_held s
lock_step strict (write_lookahead_size _) s = s
lock_step strict (send_net_buffer_lists _ _ _ _) s = needs_free s
lock_step strict (send_net_buffer_lists_complete _ _ _) s = needs_free s
lock_step strict (indicate_receive_net_buffer_lists _ _ _ _ _) s = needs_free s
lock_step strict (return_net_buffer_lists _ _ _) s = needs_free s
lock_step strict (open_configuration _) s = needs_free s
lock_step strict close_configuration s = needs_free s
lock_step strict (device_pnp_event_notify _ _) s = needs_free s

abbrev pub lock_after : Bool → List Action → LockState
lock_after strict [] = free
lock_after strict (a ∷ trace) = lock_step strict a (lock_after strict trace)

add_sends-held :
    (nbls : List Nbl) (w : World) (form : Bool)
    → lock_after false w.trace ≡ held form
    → lock_after false (add_sends nbls w).1.trace ≡ held form
unfolding add_sends
add_sends-held [] w form h = h
add_sends-held (nbl ∷ nbls) w form h = add_sends-held nbls _ form (ground arith)

module _ (flags : NdisFlags) where
  send_complete-free :
      (nbls : List Nbl) (complete_flags : ℕ) (w : World)
      → lock_after false w.trace ≡ free
      → lock_after false (filter_send_net_buffer_lists_complete flags nbls complete_flags w).1.trace
        ≡ free
  unfolding filter_send_net_buffer_lists_complete
  send_complete-free nbls complete_flags w h = ground arith

  track_and_send-free :
      (nbls : List Nbl) (port send_flags : ℕ) (form : Bool) (w : World)
      → lock_after false w.trace ≡ free
      → lock_after false (track_and_send flags nbls port send_flags form w).1.trace ≡ free
  unfolding track_and_send
  track_and_send-free nbls port send_flags form w h =
      ground (arith, add_sends-held nbls (record w { trace = acquire_lock form ∷ w.trace }) form)

  send-free :
      (dbg : Bool) (nbls : List Nbl) (port send_flags : ℕ) (w : World)
      → lock_after false w.trace ≡ free
      → lock_after false (filter_send_net_buffer_lists flags dbg nbls port send_flags w).1.trace
        ≡ free
  unfolding filter_send_net_buffer_lists
  send-free dbg nbls port send_flags w h =
      let form = flags.test_send_at_dispatch_level send_flags in
      let tested = record w { trace = release_lock form ∷ acquire_lock form ∷ w.trace } in
      ground (
        arith,
        track_and_send-free nbls port send_flags form w,
        track_and_send-free nbls port send_flags form tested,
      )

  receive-free :
      (dbg : Bool) (nbls : List Nbl) (port count receive_flags : ℕ) (w : World)
      → lock_after false w.trace ≡ free
      → lock_after false
          (filter_receive_net_buffer_lists flags dbg nbls port count receive_flags w).1.trace
        ≡ free
  unfolding filter_receive_net_buffer_lists
  receive-free dbg nbls port count receive_flags w h = ground arith

  return-free :
      (nbls : List Nbl) (return_flags : ℕ) (w : World)
      → lock_after false w.trace ≡ free
      → lock_after false (filter_return_net_buffer_lists flags nbls return_flags w).1.trace ≡ free
  unfolding filter_return_net_buffer_lists
  return-free nbls return_flags w h = ground arith

  handle-free :
      (dbg : Bool) (event : Event) (w : World)
      → lock_after false w.trace ≡ free
      → lock_after false (handle flags dbg event w).trace ≡ free
  unfolding handle filter_pause filter_restart filter_device_pnp_event_notify
      filter_set_module_options
  handle-free dbg (send nbls port f) w h = send-free dbg nbls port f w h
  handle-free dbg (send_complete nbls f) w h = send_complete-free nbls f w h
  handle-free dbg (receive nbls port n f) w h = receive-free dbg nbls port n f w h
  handle-free dbg (return nbls f) w h = return-free nbls f w h
  handle-free dbg _ w h = ground arith

  -- Whatever sequence of calls NDIS makes, the handlers leave the module's lock free, never take
  -- it twice, let it go in the form in which they took it, write the counters of outstanding sends
  -- and receives under it, and never call into NDIS while they hold it.
  pub run-lock_after :
      (dbg : Bool) (events : List Event) (w : World)
      → lock_after false w.trace ≡ free
      → lock_after false (run flags dbg events w).trace ≡ free
  unfolding run
  run-lock_after dbg [] w h = h
  run-lock_after dbg (event ∷ events) w h =
      run-lock_after dbg events (handle flags dbg event w) (handle-free dbg event w h)

-- Pausing a module and restarting it write its `State` while the lock is free, whatever the answer
-- to opening the configuration and whatever the attributes: the stricter discipline, which asks for
-- the lock on `State` as well, is broken from every trace that keeps it.
pub State_unlocked :
    (w : World) (opened : NdisStatus) (attributes : Option RestartAttributes)
    → lock_after true w.trace ≡ free
    → (lock_after true (filter_pause w).1.trace ≡ broken)
      × (lock_after true (filter_restart opened attributes w).1.trace ≡ broken)
unfolding filter_pause filter_restart
State_unlocked w opened attributes h = (ground arith, ground arith)
