-- ===== src/FilterDriver/DataPath.antt =====
-- The data path of src/FilterDriver/main.cpp: send, send complete, receive and return. `dbg` is the
-- build's DBG. The reference logs (FILTER_LOG_…) expand to nothing.
use basic_windows_drivers.Base.{ℕ, Bool, ◌&&◌, List, [], ◌∷◌, if◌then◌else◌}
use basic_windows_drivers.Base.Word.{add32, sub32}
use basic_windows_drivers.FilterDriver.Ndis.{
  NdisStatus, Nbl, NdisFlags, is_running, send_net_buffer_lists, send_net_buffer_lists_complete,
  indicate_receive_net_buffer_lists, return_net_buffer_lists,
}
use basic_windows_drivers.FilterDriver.Module.{
  M, ◌>>=◌, ◌>>◌, pure, gets, call, filter_acquire_lock, filter_release_lock, set_outstanding_sends,
  set_outstanding_rcvs,
}

-- The loops `while (CurrNbl) n++` over a chain.
unfoldable pub count_nbls : ℕ → List Nbl → ℕ
count_nbls n [] = n
count_nbls n (nbl ∷ nbls) = count_nbls (add32 n 1) nbls

-- The loop that counts each NBL of a send in the module.
unfoldable pub add_sends : List Nbl → M (Unit {0})
add_sends [] = pure tt
add_sends (nbl ∷ nbls) = do
  n ← gets (λ f. f.outstanding_sends)
  set_outstanding_sends (add32 n 1)
  add_sends nbls

-- The loop that fails each NBL of a refused send.
unfoldable pub fail_nbls : List Nbl → List Nbl
fail_nbls [] = []
fail_nbls (nbl ∷ nbls) = record nbl { status = NdisStatus.paused } ∷ fail_nbls nbls

module _ (flags : NdisFlags) where
  open flags use {
    test_send_at_dispatch_level, send_complete_flags_dispatch_level, test_receive_at_dispatch_level,
    test_receive_can_pend, test_receive_cannot_pend, test_return_at_dispatch_level,
    return_flags_dispatch_level, set_return_flag,
  }

  -- `if (pFilter->TrackSends) { … }` of the completion handler.
  unfoldable pub untrack_sends : List Nbl → Bool → M (Unit {0})
  untrack_sends nbls dispatch_level = do
    filter_acquire_lock dispatch_level
    n ← gets (λ f. f.outstanding_sends)
    set_outstanding_sends (sub32 n (count_nbls 0 nbls))
    filter_release_lock dispatch_level

  unfoldable pub filter_send_net_buffer_lists_complete : List Nbl → ℕ → M (Unit {0})
  unfolding untrack_sends
  filter_send_net_buffer_lists_complete nbls send_complete_flags = do
    tracked ← gets (λ f. f.track_sends)
    if tracked
        then untrack_sends nbls (test_send_at_dispatch_level send_complete_flags)
        else pure tt
    handle ← gets (λ f. f.filter_handle)
    call (send_net_buffer_lists_complete handle nbls send_complete_flags)

  -- The branch of a debug build for a module that is not running: the send is failed.
  unfoldable pub refuse_send : List Nbl → Bool → M (Unit {0})
  refuse_send nbls dispatch_level = do
    handle ← gets (λ f. f.filter_handle)
    call (
        send_net_buffer_lists_complete handle (fail_nbls nbls)
          (if dispatch_level then send_complete_flags_dispatch_level else 0))

  unfoldable pub track_and_send : List Nbl → ℕ → ℕ → Bool → M (Unit {0})
  track_and_send nbls port send_flags dispatch_level = do
    tracked ← gets (λ f. f.track_sends)
    if tracked
        then (do
          filter_acquire_lock dispatch_level
          add_sends nbls
          filter_release_lock dispatch_level)
        else pure tt
    handle ← gets (λ f. f.filter_handle)
    call (send_net_buffer_lists handle nbls port send_flags)

  unfoldable pub filter_send_net_buffer_lists : Bool → List Nbl → ℕ → ℕ → M (Unit {0})
  unfolding refuse_send
  filter_send_net_buffer_lists dbg nbls port send_flags = do
    let dispatch_level = test_send_at_dispatch_level send_flags
    if dbg
        then (do
          filter_acquire_lock dispatch_level
          state ← gets (λ f. f.state)
          filter_release_lock dispatch_level
          if is_running state
              then track_and_send nbls port send_flags dispatch_level
              else refuse_send nbls dispatch_level)
        else track_and_send nbls port send_flags dispatch_level

  -- The branch of a debug build for a module that is not running: what may be kept is returned.
  unfoldable pub refuse_receive : List Nbl → ℕ → M (Unit {0})
  refuse_receive nbls receive_flags = do
    let return_flags =
        if test_receive_at_dispatch_level receive_flags
        then set_return_flag 0 return_flags_dispatch_level
        else 0
    handle ← gets (λ f. f.filter_handle)
    if test_receive_can_pend receive_flags
        then call (return_net_buffer_lists handle nbls return_flags)
        else pure tt

  unfoldable pub add_rcvs : ℕ → Bool → M (Unit {0})
  add_rcvs count dispatch_level = do
    filter_acquire_lock dispatch_level
    n ← gets (λ f. f.outstanding_rcvs)
    set_outstanding_rcvs (add32 n count)
    filter_release_lock dispatch_level

  unfoldable pub sub_rcvs : ℕ → Bool → M (Unit {0})
  sub_rcvs count dispatch_level = do
    filter_acquire_lock dispatch_level
    n ← gets (λ f. f.outstanding_rcvs)
    set_outstanding_rcvs (sub32 n count)
    filter_release_lock dispatch_level

  unfoldable pub track_and_indicate : List Nbl → ℕ → ℕ → ℕ → Bool → M (Unit {0})
  unfolding add_rcvs sub_rcvs
  track_and_indicate nbls port count receive_flags dispatch_level = do
    tracked ← gets (λ f. f.track_receives)
    if tracked then add_rcvs count dispatch_level else pure tt
    handle ← gets (λ f. f.filter_handle)
    call (indicate_receive_net_buffer_lists handle nbls port count receive_flags)
    still_tracked ← gets (λ f. f.track_receives)
    if test_receive_cannot_pend receive_flags && still_tracked
        then sub_rcvs count dispatch_level
        else pure tt

  unfoldable pub filter_receive_net_buffer_lists : Bool → List Nbl → ℕ → ℕ → ℕ → M (Unit {0})
  unfolding refuse_receive track_and_indicate
  filter_receive_net_buffer_lists dbg nbls port count receive_flags = do
    let dispatch_level = test_receive_at_dispatch_level receive_flags
    if dbg
        then (do
          filter_acquire_lock dispatch_level
          state ← gets (λ f. f.state)
          filter_release_lock dispatch_level
          if is_running state
              then track_and_indicate nbls port count receive_flags dispatch_level
              else refuse_receive nbls receive_flags)
        else track_and_indicate nbls port count receive_flags dispatch_level

  unfoldable pub filter_return_net_buffer_lists : List Nbl → ℕ → M (Unit {0})
  unfolding sub_rcvs
  filter_return_net_buffer_lists nbls return_flags = do
    tracked ← gets (λ f. f.track_receives)
    let count = if tracked then count_nbls 0 nbls else 0
    handle ← gets (λ f. f.filter_handle)
    call (return_net_buffer_lists handle nbls return_flags)
    still_tracked ← gets (λ f. f.track_receives)
    if still_tracked then sub_rcvs count (test_return_at_dispatch_level return_flags) else pure tt
