-- ===== src/FilterDriver/Interleaving/Examples.antt =====
-- The theorems on interleaved calls at a run in which two sends and a completion meet.
use basic_windows_drivers.Base.{◌+◌, ◌≤◌, ◌≡◌, refl, ◌⊎◌, true, false, [], ◌∷◌, All, arith}
use basic_windows_drivers.Base.Word.{add32, sub32, ulong}
use basic_windows_drivers.FilterDriver.Examples.{flag_words, packets, idle}
use basic_windows_drivers.FilterDriver.DataPath.{
  filter_send_net_buffer_lists, track_and_send, add_sends,
}
use basic_windows_drivers.FilterDriver.Interleaving.{
  Shared, Pc, sending, complete_loaded, finished, lock_send, load_send, store_send, unlock_send,
  pass, lock_complete, load_complete, store_complete, State, call_send, call_complete, run, Reach,
  start, later,
}
use basic_windows_drivers.FilterDriver.Interleaving.Counting.{sends_of, rcvs_of, holds, total}
use basic_windows_drivers.FilterDriver.Interleaving.Exact.{quiet, IsCovered, Reach-outstanding}
use basic_windows_drivers.FilterDriver.Interleaving.Alone.{Moves, handlers-Moves}
use basic_windows_drivers.FilterDriver.Interleaving.Progress.{Runs, none_yet, one_more, Runs-end}

-- Two NBLs are sent, one of them completes, and a second send waits for the lock that the completion holds.
abbrev meeting : State
meeting = record {
  shared = record {
    locked = true;
    outstanding_sends = 2;
    outstanding_rcvs = 0;
    below = 1;
    above = 0;
  };
  calls = sending 3 ∷ complete_loaded 1 2 ∷ finished ∷ [];
}

meeting-Reach : Reach quiet meeting
unfolding add32
meeting-Reach =
    let sent = later start (call_send 2) in
    let locked = later sent (run [] [] refl (lock_send refl)) in
    let one = later (later locked (run [] [] refl load_send)) (run [] [] refl store_send) in
    let two = later (later one (run [] [] refl load_send)) (run [] [] refl store_send) in
    let passed = later (later two (run [] [] refl (unlock_send refl))) (run [] [] refl pass) in
    let completed = later passed (call_complete 1 (omega arith)) in
    let held = later completed (run [] (finished ∷ []) refl (lock_complete refl)) in
    let waiting = later held (call_send 3) in
    later waiting (run (sending 3 ∷ []) (finished ∷ []) refl load_complete)

Reach-outstanding_example :
    (total holds meeting.calls ≤ 1)
    × (2 ≡ 1 + total sends_of meeting.calls)
    × (0 ≡ 0 + total rcvs_of meeting.calls)
    × All IsCovered meeting.calls
Reach-outstanding_example = Reach-outstanding meeting meeting-Reach (omega arith) (omega arith)

-- The completion stores what it computed.
abbrev stored : State
stored = record {
  shared = record (meeting.shared) { outstanding_sends = sub32 2 1 };
  calls = sending 3 ∷ Pc.complete_stored ∷ finished ∷ [];
}

stored-Runs : Runs meeting 1 stored
stored-Runs = one_more (sending 3 ∷ []) (finished ∷ []) none_yet refl store_complete

Runs-end_example :
    (1 + 11 ≤ 12)
    × (((u : State) × Runs meeting 2 u)
        ⊎ (All (λ p. p ≡ finished) stored.calls
            × (true ≡ false)
            × (sub32 2 1 ≡ ulong 1)
            × (0 ≡ ulong 0)))
Runs-end_example = Runs-end meeting stored 1 meeting-Reach stored-Runs

-- The lock is free and nothing is counted.
abbrev nothing_counted : Shared
nothing_counted = quiet.shared

handlers-Moves_example :
    Moves nothing_counted
      (sending 2)
      (record nothing_counted { outstanding_sends = 2; below = 2 })
      finished
unfolding filter_send_net_buffer_lists track_and_send add_sends add32
handlers-Moves_example =
    (handlers-Moves flag_words packets 0 2 0 idle nothing_counted refl refl refl refl refl).0
