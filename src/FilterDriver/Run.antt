-- ===== src/FilterDriver/Run.antt =====
-- A module's life as NDIS drives it: the calls that NDIS makes into src/FilterDriver/main.cpp once
-- a module is attached, and any sequence of them.
use basic_windows_drivers.Base.{ℕ, Bool, List, [], ◌∷◌, Option}
use basic_windows_drivers.FilterDriver.Ndis.{NdisStatus, Nbl, NdisFlags}
use basic_windows_drivers.FilterDriver.Module.{World}
use basic_windows_drivers.FilterDriver.DataPath.{
  filter_send_net_buffer_lists, filter_send_net_buffer_lists_complete,
  filter_receive_net_buffer_lists, filter_return_net_buffer_lists,
}
use basic_windows_drivers.FilterDriver.Control.{
  RestartAttributes, filter_pause, filter_restart, filter_device_pnp_event_notify,
  filter_set_module_options,
}

-- `receive` carries NumberOfNetBufferLists, and `restart` and `set_module_options` the answers of
-- the services that their handlers call.
pub data Event : Type 0 where
  send : List Nbl → ℕ → ℕ → Event
  send_complete : List Nbl → ℕ → Event
  receive : List Nbl → ℕ → ℕ → ℕ → Event
  return : List Nbl → ℕ → Event
  pause : Event
  restart : NdisStatus → Option RestartAttributes → Event
  device_pnp_event : ℕ → Event
  set_module_options : NdisStatus → Event

module _ (flags : NdisFlags) (dbg : Bool) where
  unfoldable pub handle : Event → World → World
  handle (send nbls port send_flags) w =
      (filter_send_net_buffer_lists flags dbg nbls port send_flags w).1
  handle (send_complete nbls complete_flags) w =
      (filter_send_net_buffer_lists_complete flags nbls complete_flags w).1
  handle (receive nbls port count receive_flags) w =
      (filter_receive_net_buffer_lists flags dbg nbls port count receive_flags w).1
  handle (return nbls return_flags) w = (filter_return_net_buffer_lists flags nbls return_flags w).1
  handle pause w = (filter_pause w).1
  handle (restart opened attributes) w = (filter_restart opened attributes w).1
  handle (device_pnp_event event) w = (filter_device_pnp_event_notify event w).1
  handle (set_module_options installed) w = (filter_set_module_options installed w).1

  unfoldable pub run : List Event → World → World
  run [] w = w
  run (event ∷ events) w = run events (handle event w)
