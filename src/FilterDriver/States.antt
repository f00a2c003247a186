-- ===== src/FilterDriver/States.antt =====
-- The control side of a module, src/FilterDriver/main.cpp: its state, the configuration handles
-- that it opens, the restart attributes, and the options that it could set.
use basic_windows_drivers.Base.{
  ℕ, ◌+◌, ◌≡◌, refl, sym, ap, ◌∙◌, Bool, true, List, [], ◌∷◌, if◌then◌else◌, arith,
}
use basic_windows_drivers.FilterDriver.Ndis.{
  Nbl, NdisFlags, FilterState, Action, is_success, acquire_lock, release_lock, open_configuration,
  close_configuration,
}
use basic_windows_drivers.FilterDriver.Module.{World}
use basic_windows_drivers.FilterDriver.DataPath.{
  add_sends, track_and_send, filter_send_net_buffer_lists, filter_send_net_buffer_lists_complete,
  filter_receive_net_buffer_lists, filter_return_net_buffer_lists,
}
use basic_windows_drivers.FilterDriver.Control.{
  filter_pause, filter_restart, filter_device_pnp_event_notify, ModuleOptions,
  filter_set_module_options, module_options,
}
use basic_windows_drivers.FilterDriver.Run.{Event, send, send_complete, pause, restart, handle, run}

-- The state that a sequence of calls leads to: what the last pause or restart says.
abbrev pub state_after : FilterState → List Event → FilterState
state_after s [] = s
state_after s (pause ∷ events) = state_after FilterState.paused events
state_after s (restart _ _ ∷ events) = state_after FilterState.running events
state_after s (_ ∷ events) = state_after s events

-- How many configurations are open after a trace.
abbrev pub opened_configurations : List Action → ℕ
opened_configurations [] = 0
opened_configurations (open_configuration s ∷ trace) =
    (if is_success s then 1 else 0) + opened_configurations trace
opened_configurations (_ ∷ trace) = opened_configurations trace

abbrev pub closed_configurations : List Action → ℕ
closed_configurations [] = 0
closed_configurations (close_configuration ∷ trace) = 1 + closed_configurations trace
closed_configurations (_ ∷ trace) = closed_configurations trace

-- What the data path leaves alone.
abbrev Unmoved : World → World → Type 0
Unmoved w w' =
    (w'.filter.state ≡ w.filter.state)
    × (opened_configurations w'.trace ≡ opened_configurations w.trace)
    × (closed_configurations w'.trace ≡ closed_configurations w.trace)

add_sends-Unmoved : (nbls : List Nbl) (w : World) → Unmoved w (add_sends nbls w).1
unfolding add_sends
add_sends-Unmoved [] w = (refl, refl, refl)
add_sends-Unmoved (nbl ∷ nbls) w = add_sends-Unmoved nbls _

module _ (flags : NdisFlags) where
  track_and_send-Unmoved :
      (nbls : List Nbl) (port send_flags : ℕ) (form : Bool) (w : World)
      → Unmoved w (track_and_send flags nbls port send_flags form w).1
  unfolding track_and_send
  track_and_send-Unmoved nbls port send_flags form w =
      ground (arith, add_sends-Unmoved nbls (record w { trace = acquire_lock form ∷ w.trace }))

  send-Unmoved :
      (dbg : Bool) (nbls : List Nbl) (port send_flags : ℕ) (w : World)
      → Unmoved w (filter_send_net_buffer_lists flags dbg nbls port send_flags w).1
  unfolding filter_send_net_buffer_lists
  send-Unmoved dbg nbls port send_flags w =
      let form = flags.test_send_at_dispatch_level send_flags in
      let tested = record w { trace = release_lock form ∷ acquire_lock form ∷ w.trace } in
      ground (
        arith,
        track_and_send-Unmoved nbls port send_flags form w,
        track_and_send-Unmoved nbls port send_flags form tested,
      )

  handle-state :
      (dbg : Bool) (event : Event) (w : World)
      → ((handle flags dbg event w).filter.state ≡ state_after w.filter.state (event ∷ []))
        × (opened_configurations (handle flags dbg event w).trace + closed_configurations w.trace
            ≡ closed_configurations (handle flags dbg event w).trace
              + opened_configurations w.trace)
  unfolding handle filter_send_net_buffer_lists_complete filter_receive_net_buffer_lists
      filter_return_net_buffer_lists filter_pause filter_restart filter_device_pnp_event_notify
      filter_set_module_options
  handle-state dbg (send nbls port f) w = ground (arith, send-Unmoved dbg nbls port f w)
  handle-state dbg (send_complete nbls f) w = ground arith
  handle-state dbg _ w = ground arith

  state_after-cons :
      (s : FilterState) (event : Event) (events : List Event)
      → state_after s (event ∷ events) ≡ state_after (state_after s (event ∷ [])) events
  state_after-cons s (send nbls port f) events = refl
  state_after-cons s _ events = refl

  -- A module's state between two calls is what the last pause or restart set: paused after a pause,
  -- running after a restart, whatever NDIS answered to opening the configuration, and no data path
  -- call moves it. No transitional state is left behind. And every configuration that a restart
  -- opened it has closed.
  pub run-state :
      (dbg : Bool) (events : List Event) (w : World)
      → opened_configurations w.trace ≡ closed_configurations w.trace
      → ((run flags dbg events w).filter.state ≡ state_after w.filter.state events)
        × (opened_configurations (run flags dbg events w).trace
            ≡ closed_configurations (run flags dbg events w).trace)
  unfolding run
  run-state dbg [] w h = (refl, h)
  run-state dbg (event ∷ events) w h =
      let step = handle-state dbg event w in
      let w' = handle flags dbg event w in
      let rest = run-state dbg events w' (omega arith) in
      (
        rest.0
            ∙ (ap (λ (s : FilterState). state_after s events) step.0
                ∙ sym (state_after-cons w.filter.state event events)),
        rest.1,
      )

pub data Direction : Type 0 where
  sends receives : Direction

abbrev pub is_tracked : Direction → ModuleOptions → Bool
is_tracked sends o = o.track_sends
is_tracked receives o = o.track_receives

-- Whether the handler that counts up, and the one that counts down, is installed.
abbrev pub counts_up : Direction → ModuleOptions → Bool
counts_up sends o = o.handlers.send
counts_up receives o = o.handlers.receive

abbrev pub counts_down : Direction → ModuleOptions → Bool
counts_down sends o = o.handlers.send_complete
counts_down receives o = o.handlers.return

-- Whichever options a module would rotate to, a direction that it tracks has both of its handlers
-- installed or neither, so that its counter cannot move one way only.
pub module_options-tracked :
    (i : ℕ) (direction : Direction)
    → is_tracked direction (module_options i) ≡ true
    → counts_up direction (module_options i) ≡ counts_down direction (module_options i)
unfolding module_options
module_options-tracked i sends t = ground arith
module_options-tracked i receives t = ground arith
