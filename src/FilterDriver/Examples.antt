-- ===== src/FilterDriver/Examples.antt =====
-- The theorems on src/FilterDriver at concrete inputs, and tests of its handlers.
use basic_windows_drivers.Base.{
  ℕ, suc, ◌+◌, ◌≡◌, refl, ap, inr, Bool, true, false, not, List, [], ◌∷◌, none, some, is_some,
  arith,
}
use basic_windows_drivers.Base.Word.{add32, sub32}
use basic_windows_drivers.FilterDriver.Ndis.{
  NdisStatus, Nbl, NdisFlags, FilterState, send_net_buffer_lists,
}
use basic_windows_drivers.FilterDriver.Module.{World}
use basic_windows_drivers.FilterDriver.DataPath.{
  count_nbls, add_sends, track_and_send, filter_send_net_buffer_lists,
  filter_send_net_buffer_lists_complete, filter_receive_net_buffer_lists,
}
use basic_windows_drivers.FilterDriver.Control.{RestartAttributes}
use basic_windows_drivers.FilterDriver.Run.{Event, send, send_complete, receive, handle, run}
use basic_windows_drivers.FilterDriver.Driver.{ListApi, Driver, erase}
use basic_windows_drivers.FilterDriver.Attach.{
  AttachParameters, AttachReplies, Medium, zero_filter, context_size, filter_attach, filter_detach,
}
use basic_windows_drivers.FilterDriver.Entry.{EntryReplies, Irp, MajorFunction}
use basic_windows_drivers.FilterDriver.Locking.{free, lock_after, run-lock_after}
use basic_windows_drivers.FilterDriver.Forwarding.{ndis_calls, send_forwards}
use basic_windows_drivers.FilterDriver.Sends.{run-outstanding_sends}
use basic_windows_drivers.FilterDriver.Receives.{run-outstanding_rcvs}
use basic_windows_drivers.FilterDriver.Attachment.{
  attach-success, attach-failed, attach-names, attach-outside, attach-detach,
}
use basic_windows_drivers.FilterDriver.Consistency.{
  IsConsistent, attach, here, next, Reach-IsConsistent,
}

-- Flag words in which 1 asks for the dispatch level and 2 says that the chain cannot pend.
abbrev is_odd : ℕ → Bool
is_odd ℕ.zero = false
is_odd (suc n) = not (is_odd n)

abbrev two_or_three : ℕ → Bool
two_or_three (suc (suc ℕ.zero)) = true
two_or_three (suc (suc (suc ℕ.zero))) = true
two_or_three _ = false

abbrev pub flag_words : NdisFlags
flag_words = record {
  test_send_at_dispatch_level = is_odd;
  send_complete_flags_dispatch_level = 1;
  test_receive_at_dispatch_level = is_odd;
  test_receive_can_pend = λ f. not (two_or_three f);
  test_receive_cannot_pend = two_or_three;
  test_return_at_dispatch_level = is_odd;
  return_flags_dispatch_level = 1;
  set_return_flag = λ f g. f + g;
  can_pend-cannot_pend = λ f. refl;
}

abbrev list_api : ListApi (List ℕ)
list_api = record {
  entries = λ l. l;
  initialize_list_head = [];
  insert_head_list = λ a l. a ∷ l;
  remove_entry_list = erase;
  is_list_empty = λ l. elim l [ [] ↦ true | _ ↦ false ];
  entries-initialize = refl;
  entries-insert = λ a l. refl;
  entries-remove = λ a l n h. refl;
}

abbrev pub packets : List Nbl
packets =
    record { packet = 7; status = NdisStatus.success }
    ∷ record { packet = 8; status = NdisStatus.success }
    ∷ []

abbrev pub idle : World
idle = record {
  filter = record zero_filter {
    state = FilterState.running;
    filter_handle = 5;
    track_sends = true;
    track_receives = true;
  };
  trace = [];
}

abbrev history : List Event
history =
    send packets 0 1
    ∷ receive packets 0 2 2
    ∷ receive packets 0 2 0
    ∷ send_complete packets 0
    ∷ send packets 0 0
    ∷ []

history_counts :
    let w = run flag_words true history idle in
    (w.filter.outstanding_sends ≡ 2) × (w.filter.outstanding_rcvs ≡ 2)
unfolding run handle filter_send_net_buffer_lists filter_send_net_buffer_lists_complete
    filter_receive_net_buffer_lists add_sends count_nbls track_and_send add32 sub32
history_counts = (refl, refl)

run-lock_after_example : lock_after false (run flag_words true history idle).trace ≡ free
run-lock_after_example = run-lock_after flag_words true history idle refl

run-outstanding_sends_example : (run flag_words true history idle).filter.outstanding_sends ≡ 2
unfolding run handle filter_send_net_buffer_lists filter_send_net_buffer_lists_complete
    filter_receive_net_buffer_lists add_sends count_nbls track_and_send add32 sub32
run-outstanding_sends_example =
    run-outstanding_sends flag_words true history idle refl refl refl (omega arith) (omega arith)

run-outstanding_rcvs_example : (run flag_words true history idle).filter.outstanding_rcvs ≡ 2
unfolding run handle filter_send_net_buffer_lists filter_send_net_buffer_lists_complete
    filter_receive_net_buffer_lists add_sends count_nbls track_and_send add32 sub32
run-outstanding_rcvs_example =
    run-outstanding_rcvs flag_words true history idle refl refl refl (omega arith) (omega arith)

abbrev two_attributes : RestartAttributes
two_attributes = record { oid = 1; lookahead_size = 500; next = 2 ∷ [] }

-- A driver with no module, in which object 9 is the driver's.
abbrev fresh : Driver (List ℕ)
fresh = record {
  filter_driver_handle = 4;
  filter_driver_object = 9;
  ndis_filter_device_handle = 0;
  ndis_device_object = 0;
  device_extension = none;
  filter_module_list = [];
  filters = λ p. none;
  blocks = λ p. none;
  bytes = λ a. 0;
  trace = [];
}

abbrev parameters : AttachParameters
parameters = record {
  miniport_media_type = Medium.wan;
  filter_module_guid_name = 65 ∷ 0 ∷ [];
  base_miniport_instance_name = 66 ∷ 0 ∷ 67 ∷ 0 ∷ [];
  base_miniport_name = 68 ∷ 0 ∷ [];
  base_miniport_if_index = 3;
}

abbrev granted : AttachReplies
granted = record { allocated = 1000; attributes_set = NdisStatus.success }

abbrev refused : AttachReplies
refused = record { allocated = 1000; attributes_set = NdisStatus.failure }

attach-success_example :
    (filter_attach list_api 200 fresh 5 9 parameters granted).1 ≡ NdisStatus.success
attach-success_example =
    (attach-success list_api 200 fresh 5 9 parameters granted).1 (refl, refl, omega arith, refl)

attach-names_example :
    is_some ((filter_attach list_api 200 fresh 5 9 parameters granted).0.filters 1000) ≡ true
attach-names_example =
    let attached = attach-names list_api 200 fresh 5 9 parameters granted attach-success_example in
    ap is_some attached.1

attach-failed_example :
    (filter_attach list_api 200 fresh 5 9 parameters refused).0.blocks ≡ fresh.blocks
unfolding filter_attach
attach-failed_example =
    (attach-failed list_api 200 fresh 5 9 parameters refused (λ e. cc) refl refl).1

attach-outside_example : (filter_attach list_api 200 fresh 5 9 parameters granted).0.bytes 1208 ≡ 0
unfolding context_size
attach-outside_example =
    attach-outside list_api 200 fresh 5 9 parameters granted 1208 (omega arith) (inr (omega arith))

attach-detach_example :
    (d' : Driver (List ℕ)) × (filter_detach list_api 200
        (filter_attach list_api 200 fresh 5 9 parameters granted).0
        1000
      ≡ some d')
    × (d'.filters ≡ fresh.filters)
    × (d'.blocks ≡ fresh.blocks)
    × (d'.filter_module_list ≡ [])
attach-detach_example =
    attach-detach list_api 200 fresh 5 9 parameters granted attach-success_example refl refl

fresh-IsConsistent : IsConsistent list_api 200 fresh
fresh-IsConsistent = record { listed = λ p. refl; allocated = λ p. refl; unnamed = λ p f e. cc }

Reach-IsConsistent_example :
    IsConsistent list_api 200 (filter_attach list_api 200 fresh 5 9 parameters granted).0
Reach-IsConsistent_example =
    Reach-IsConsistent list_api 200 (next here (attach 5 9 parameters granted refl))
      fresh-IsConsistent

abbrev replies : EntryReplies
replies = record {
  registered = NdisStatus.success;
  driver_handle = 4;
  device_registered = NdisStatus.success;
  device_object = 6;
  device_handle = 8;
}

abbrev irp : Irp
irp = record { major_function = MajorFunction.create; status = none; completed = 0 }

send_forwards_example :
    ndis_calls (filter_send_net_buffer_lists flag_words false packets 0 1 idle).1.trace
    ≡ send_net_buffer_lists 5 packets 0 1 ∷ []
send_forwards_example = (send_forwards flag_words false packets 0 1 idle).2
