-- ===== src/FilterDriver/Ndis.antt =====
-- What the filter driver (src/FilterDriver) uses of NDIS: the status codes that it names, packets
-- (NET_BUFFER_LIST), the macros on flag words as a parameter, and the actions that a handler makes
-- visible to others, in the order in which it makes them.
use basic_windows_drivers.Base.{ℕ, ◌≡◌, Bool, true, false, not, List}

pub data NdisStatus : Type 0 where
  success paused resources failure invalid_parameter : NdisStatus
  other : ℕ → NdisStatus

abbrev pub is_success : NdisStatus → Bool
is_success success = true
is_success _ = false

-- A NET_BUFFER_LIST: which one it is, and its NET_BUFFER_LIST_STATUS. A chain is a list of them.
pub record Nbl : Type 0 where
  pub packet : ℕ
  pub status : NdisStatus

pub data FilterState : Type 0 where
  unspecified initialized pausing paused running restarting detaching : FilterState

abbrev pub is_running : FilterState → Bool
is_running running = true
is_running _ = false

-- The macros of ndis.h on send, receive and return flags, with what is documented of them.
pub record NdisFlags : Type 0 where
  pub test_send_at_dispatch_level : ℕ → Bool
  pub send_complete_flags_dispatch_level : ℕ
  pub test_receive_at_dispatch_level : ℕ → Bool
  pub test_receive_can_pend : ℕ → Bool
  pub test_receive_cannot_pend : ℕ → Bool
  pub test_return_at_dispatch_level : ℕ → Bool
  pub return_flags_dispatch_level : ℕ
  pub set_return_flag : ℕ → ℕ → ℕ
  pub can_pend-cannot_pend :
      (flags : ℕ) → test_receive_can_pend flags ≡ not (test_receive_cannot_pend flags)

-- What a handler does to the world: spin lock calls (`true`: the Dpr form), writes of the fields
-- that the module's lock protects, and calls into NDIS. The list `trace` has the newest first.
pub data Action : Type 0 where
  acquire_lock release_lock : Bool → Action
  write_state : FilterState → Action
  write_outstanding_sends write_outstanding_rcvs : ℕ → Action
  send_net_buffer_lists : ℕ → List Nbl → ℕ → ℕ → Action
  send_net_buffer_lists_complete : ℕ → List Nbl → ℕ → Action
  indicate_receive_net_buffer_lists : ℕ → List Nbl → ℕ → ℕ → ℕ → Action
  return_net_buffer_lists : ℕ → List Nbl → ℕ → Action
  open_configuration : NdisStatus → Action
  close_configuration : Action
  device_pnp_event_notify : ℕ → ℕ → Action
  write_lookahead_size : ℕ → Action
