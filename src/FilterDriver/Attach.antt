-- ===== src/FilterDriver/Attach.antt =====
-- FilterAttach and FilterDetach of src/FilterDriver/main.cpp.
use basic_windows_drivers.Base.{
  ℕ, ◌+◌, Bool, true, false, List, ◌∷◌, Option, none, some, if◌then◌else◌, ◌==◌, length,
}
use basic_windows_drivers.Base.Word.{ulong}
use basic_windows_drivers.FilterDriver.Ndis.{NdisStatus, FilterState, is_success}
use basic_windows_drivers.FilterDriver.Module.{MsFilter, UnicodeString}
use basic_windows_drivers.FilterDriver.Driver.{
  ListApi, Driver, acquire_list_lock, release_list_lock, allocate_memory, free_memory,
  set_attributes, update, move_memory,
}

-- NDIS_MEDIUM: the three media that the driver takes, and the rest.
pub data Medium : Type 0 where
  ethernet_802_3 wan wireless_wan : Medium
  other_medium : ℕ → Medium

abbrev pub is_supported : Medium → Bool
is_supported (other_medium m) = false
is_supported _ = true

-- NDIS_FILTER_ATTACH_PARAMETERS. A name is given by its bytes, and its Length is their number.
pub record AttachParameters : Type 0 where
  pub miniport_media_type : Medium
  pub filter_module_guid_name : List ℕ
  pub base_miniport_instance_name : List ℕ
  pub base_miniport_name : List ℕ
  pub base_miniport_if_index : ℕ

-- What the system answers: the block allocated, 0 if there is none, and NdisFSetAttributes.
pub record AttachReplies : Type 0 where
  pub allocated : ℕ
  pub attributes_set : NdisStatus

abbrev pub empty_string : UnicodeString
empty_string = record { length = 0; maximum_length = 0; buffer = 0 }

abbrev pub string_at : ℕ → List ℕ → UnicodeString
string_at a name = record { length = length name; maximum_length = length name; buffer = a }

-- NdisZeroMemory of the context.
abbrev pub zero_filter : MsFilter
zero_filter = record {
  ref_count = 0;
  filter_handle = 0;
  filter_module_name = empty_string;
  miniport_friendly_name = empty_string;
  miniport_name = empty_string;
  miniport_if_index = 0;
  state = FilterState.unspecified;
  outstanding_sends = 0;
  outstanding_request = 0;
  outstanding_rcvs = 0;
  filter_name = empty_string;
  calls_restart = 0;
  track_receives = false;
  track_sends = false;
}

module _ {Links : Type 0} (api : ListApi Links) (sizeof_ms_filter : ℕ) where
  open api use {insert_head_list, remove_entry_list}

  -- `Size`, a ULONG.
  unfoldable pub context_size : AttachParameters → ℕ
  context_size parameters = ulong (
      sizeof_ms_filter
      + length parameters.filter_module_guid_name
      + length parameters.base_miniport_instance_name
      + length parameters.base_miniport_name)

  -- Where the three names go, one behind the other, behind the structure.
  unfoldable pub name_1 : ℕ → ℕ
  name_1 p = p + sizeof_ms_filter

  unfoldable pub name_2 : AttachParameters → ℕ → ℕ
  unfolding name_1
  name_2 parameters p = name_1 p + length parameters.filter_module_guid_name

  unfoldable pub name_3 : AttachParameters → ℕ → ℕ
  unfolding name_2
  name_3 parameters p = name_2 parameters p + length parameters.base_miniport_instance_name

  unfoldable pub new_filter : ℕ → AttachParameters → ℕ → MsFilter
  unfolding name_1 name_2 name_3
  new_filter ndis_filter_handle parameters p = record zero_filter {
    filter_module_name = string_at (name_1 p) parameters.filter_module_guid_name;
    miniport_friendly_name = string_at (name_2 parameters p) parameters.base_miniport_instance_name;
    miniport_name = string_at (name_3 parameters p) parameters.base_miniport_name;
    miniport_if_index = parameters.base_miniport_if_index;
    track_receives = true;
    track_sends = true;
    filter_handle = ndis_filter_handle;
  }

  unfoldable pub fill_names : AttachParameters → ℕ → (ℕ → ℕ) → ℕ → ℕ
  unfolding name_1 name_2 name_3
  fill_names parameters p bytes = move_memory (name_3 parameters p) parameters.base_miniport_name (
      move_memory (name_2 parameters p) parameters.base_miniport_instance_name
        (move_memory (name_1 p) parameters.filter_module_guid_name bytes))

  -- From the allocated context to the end of the `do { … } while (bFalse)`.
  unfoldable pub set_up_context :
      Driver Links → ℕ → AttachParameters → AttachReplies → Driver Links × NdisStatus
  unfolding context_size new_filter fill_names
  set_up_context d ndis_filter_handle parameters replies =
      if is_success status then (attached, status) else (prepared, status)
    where
      p : ℕ
      p = replies.allocated

      status : NdisStatus
      status = replies.attributes_set

      filter : MsFilter
      filter = new_filter ndis_filter_handle parameters p

      prepared : Driver Links
      prepared = record d {
        filters = update d.filters p (some filter);
        blocks = update d.blocks p (some (context_size parameters));
        bytes = fill_names parameters p d.bytes;
        trace =
            set_attributes ndis_filter_handle p status
            ∷ allocate_memory (context_size parameters)
            ∷ d.trace;
      }

      attached : Driver Links
      attached = record prepared {
        filters = update d.filters p (some (record filter { state = FilterState.paused }));
        filter_module_list = insert_head_list p d.filter_module_list;
        trace = release_list_lock ∷ acquire_list_lock ∷ prepared.trace;
      }

  -- FILTER_FREE_MEM: NdisFreeMemory of the block at an address.
  unfoldable pub filter_free_mem : ℕ → Driver Links → Driver Links
  filter_free_mem p d = record d {
    filters = update d.filters p none;
    blocks = update d.blocks p none;
    trace = free_memory p ∷ d.trace;
  }

  -- The `do { … } while (bFalse)`, with the status and `pFilter` at its end.
  unfoldable pub attach_body :
      Driver Links → ℕ → ℕ → AttachParameters → AttachReplies → Driver Links × NdisStatus × ℕ
  attach_body d ndis_filter_handle filter_driver_context parameters replies =
      if filter_driver_context == d.filter_driver_object
      then (if is_supported parameters.miniport_media_type
          then (if replies.allocated == 0
              then (
                record d { trace = allocate_memory (context_size parameters) ∷ d.trace },
                NdisStatus.resources,
                0,
              )
              else (
                (set_up_context d ndis_filter_handle parameters replies).0,
                (set_up_context d ndis_filter_handle parameters replies).1,
                replies.allocated,
              ))
          else (d, NdisStatus.invalid_parameter, 0))
      else (d, NdisStatus.invalid_parameter, 0)

  unfoldable pub filter_attach :
      Driver Links → ℕ → ℕ → AttachParameters → AttachReplies → Driver Links × NdisStatus
  unfolding attach_body set_up_context filter_free_mem
  filter_attach d ndis_filter_handle filter_driver_context parameters replies =
      let (d', status, p) =
        attach_body d ndis_filter_handle filter_driver_context parameters replies in
      if is_success status
      then (d', status)
      else if p == 0
      then (d', status)
      else (filter_free_mem p d', status)

  detach_filter : Driver Links → ℕ → MsFilter → Driver Links
  unfolding filter_free_mem
  detach_filter d p filter =
      let named =
        if filter.filter_name.buffer == 0 then d else filter_free_mem filter.filter_name.buffer d in
      let unlinked = record named {
        filter_module_list = remove_entry_list p named.filter_module_list;
        trace = release_list_lock ∷ acquire_list_lock ∷ named.trace;
      } in
      filter_free_mem p unlinked

  -- `none` is a fault: no module stands at the address.
  unfoldable pub filter_detach : Driver Links → ℕ → Option (Driver Links)
  unfolding detach_filter
  filter_detach d p = elim (d.filters p) [
    | none ↦ none
    | some filter ↦ some (detach_filter d p filter)
  ]
