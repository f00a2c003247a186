-- ===== src/FilterDriver/Attachment.antt =====
-- What FilterAttach and FilterDetach (src/FilterDriver/main.cpp) do to the driver's list of modules
-- and to its memory.
use basic_windows_drivers.Base.{
  ℕ, ◌+◌, ◌≤◌, ◌<◌, ◌≡◌, ◌≢◌, ◌↔◌, refl, ◌∙◌, ◌⊎◌, ap, fun_ext, true, ◌∷◌, Option, none, some,
  ==_refl, length, arith,
}
use basic_windows_drivers.Base.Word.{ulong_mod}
use basic_windows_drivers.FilterDriver.Ndis.{NdisStatus, FilterState}
use basic_windows_drivers.FilterDriver.Module.{MsFilter}
use basic_windows_drivers.FilterDriver.Driver.{
  ListApi, Driver, acquire_list_lock, release_list_lock, free_memory, update, count,
}
use basic_windows_drivers.FilterDriver.Attach.{
  AttachParameters, AttachReplies, is_supported, new_filter, context_size, fill_names,
  filter_attach, filter_detach,
}
use basic_windows_drivers.FilterDriver.Names.{text_of, names_lem, fill_names-outside}

update-restore :
    {V : Type 0} (f : ℕ → Option V) (p : ℕ) (v : Option V)
    → f p ≡ none
    → update (update f p v) p none ≡ f
update-restore f p v h = fun_ext λ q. ground arith

module _ {Links : Type 0} (api : ListApi Links) (sizeof_ms_filter : ℕ) where
  open api use {entries, insert_head_list, remove_entry_list}

  -- The module that a successful attach leaves behind: its context, in the paused state.
  abbrev pub attached_filter : ℕ → AttachParameters → ℕ → MsFilter
  attached_filter handle parameters p =
      record (new_filter api sizeof_ms_filter handle parameters p) { state = FilterState.paused }

  -- The driver after a module with no name of its own is detached.
  abbrev pub detached : Driver Links → ℕ → Driver Links
  detached d p = record d {
    filters = update d.filters p none;
    blocks = update d.blocks p none;
    filter_module_list = remove_entry_list p d.filter_module_list;
    trace = free_memory p ∷ release_list_lock ∷ acquire_list_lock ∷ d.trace;
  }

  pub filter_detach_lem :
      (d : Driver Links) (p : ℕ) (f : MsFilter)
      → d.filters p ≡ some f
      → f.filter_name.buffer ≡ 0
      → filter_detach api sizeof_ms_filter d p ≡ some (detached d p)
  unfolding filter_detach
  filter_detach_lem d p f e z = ground arith

  entries-detach :
      (p : ℕ) (l : Links) → entries (remove_entry_list p (insert_head_list p l)) ≡ entries l
  entries-detach p l = ground (
    arith,
    api.entries-insert p l,
    api.entries-remove p (insert_head_list p l) (count p (entries l)),
  )

  module _ (d : Driver Links) (handle context : ℕ) (parameters : AttachParameters)
      (replies : AttachReplies) where
    abbrev pub attach_result : Driver Links × NdisStatus
    attach_result = filter_attach api sizeof_ms_filter d handle context parameters replies

    -- Attaching succeeds exactly when NDIS passes the driver's own context, the medium is one of
    -- the three, memory is there and NDIS takes the attributes.
    pub attach-success :
        ((filter_attach api sizeof_ms_filter d handle context parameters replies).1
          ≡ NdisStatus.success)
        ↔ ((context ≡ d.filter_driver_object)
            × (is_supported parameters.miniport_media_type ≡ true)
            × (replies.allocated ≢ 0)
            × (replies.attributes_set ≡ NdisStatus.success))
    unfolding filter_attach
    attach-success = (λ h. ground arith, λ h. ground arith)

    pub attached_lem :
        attach_result.1 ≡ NdisStatus.success
        → (attach_result.0.filters
            ≡ update d.filters replies.allocated
                (some (attached_filter handle parameters replies.allocated)))
          × (attach_result.0.filter_module_list
              ≡ insert_head_list replies.allocated d.filter_module_list)
          × (attach_result.0.bytes
              ≡ fill_names api sizeof_ms_filter parameters replies.allocated d.bytes)
          × (attach_result.0.blocks
              ≡ update d.blocks replies.allocated
                  (some (context_size api sizeof_ms_filter parameters)))
    unfolding filter_attach
    attached_lem h = (ground arith, ground arith, ground arith, ground arith)

    -- An attach that fails frees what it allocated: from memory that was not in use, the live
    -- contexts, the allocated blocks and the list of modules are left as they were.
    pub attach-failed :
        attach_result.1 ≢ NdisStatus.success
        → d.filters replies.allocated ≡ none
        → d.blocks replies.allocated ≡ none
        → (attach_result.0.filters ≡ d.filters)
          × (attach_result.0.blocks ≡ d.blocks)
          × (attach_result.0.filter_module_list ≡ d.filter_module_list)
    unfolding filter_attach
    attach-failed h f b =
        let p = replies.allocated in
        let filter = new_filter api sizeof_ms_filter handle parameters p in
        let size = context_size api sizeof_ms_filter parameters in
        ground (
          arith,
          update-restore d.filters p (some filter) f,
          update-restore d.blocks p (some size) b,
        )

    -- A successful attach leaves, at the allocated address, a paused module with both directions
    -- tracked and nothing outstanding, and its three names read back as the attach parameters gave
    -- them.
    pub attach-names :
        (filter_attach api sizeof_ms_filter d handle context parameters replies).1
          ≡ NdisStatus.success
        → let d' = (filter_attach api sizeof_ms_filter d handle context parameters replies).0 in
          (f : MsFilter) × (d'.filters replies.allocated ≡ some f)
          × (f.state ≡ FilterState.paused)
          × (f.track_sends ≡ true)
          × (f.track_receives ≡ true)
          × (f.outstanding_sends ≡ 0)
          × (f.outstanding_rcvs ≡ 0)
          × (text_of f.filter_module_name d'.bytes ≡ parameters.filter_module_guid_name)
          × (text_of f.miniport_friendly_name d'.bytes ≡ parameters.base_miniport_instance_name)
          × (text_of f.miniport_name d'.bytes ≡ parameters.base_miniport_name)
    unfolding new_filter
    attach-names h =
        let p = replies.allocated in
        let f = attached_filter handle parameters p in
        let (filters, list, bytes, blocks) = attached_lem h in
        let (a, b, c) = names_lem api sizeof_ms_filter handle parameters p d.bytes in
        (
          f,
          ap (λ (g : ℕ → Option MsFilter). g p) filters ∙ rw (==_refl p),
          refl,
          refl,
          refl,
          refl,
          refl,
          rw bytes a,
          rw bytes b,
          rw bytes c,
        )

    -- Whatever happens, attaching writes to raw memory only behind the context inside the block that
    -- it allocated, as long as the size fits a ULONG.
    pub attach-outside :
        (a : ℕ)
        → sizeof_ms_filter
            + length parameters.filter_module_guid_name
            + length parameters.base_miniport_instance_name
            + length parameters.base_miniport_name
          < ulong_mod
        → (a < replies.allocated + sizeof_ms_filter)
          ⊎ (replies.allocated + context_size api sizeof_ms_filter parameters ≤ a)
        → (filter_attach api sizeof_ms_filter d handle context parameters replies).0.bytes a
          ≡ d.bytes a
    unfolding filter_attach
    attach-outside a small out = ground (
      arith,
      fill_names-outside api sizeof_ms_filter parameters replies.allocated d.bytes a small out,
    )

    -- Detaching undoes attaching: after a successful attach to fresh memory it does not fault, and
    -- the live contexts, the allocated blocks and the list of modules are those of before.
    pub attach-detach :
        (filter_attach api sizeof_ms_filter d handle context parameters replies).1
          ≡ NdisStatus.success
        → d.filters replies.allocated ≡ none
        → d.blocks replies.allocated ≡ none
        → (d' : Driver Links) × (filter_detach api sizeof_ms_filter
              (filter_attach api sizeof_ms_filter d handle context parameters replies).0
              replies.allocated
            ≡ some d')
          × (d'.filters ≡ d.filters)
          × (d'.blocks ≡ d.blocks)
          × (entries d'.filter_module_list ≡ entries d.filter_module_list)
    attach-detach h f b =
        let p = replies.allocated in
        let a = attached_filter handle parameters p in
        let w = attach_result.0 in
        let (filters, list, bytes, blocks) = attached_lem h in
        let live : w.filters p ≡ some a =
          ap (λ (g : ℕ → Option MsFilter). g p) filters ∙ rw (==_refl p) in
        (
          detached w p,
          filter_detach_lem w p a live (unfold new_filter in refl),
          rw filters (update-restore d.filters p (some a) f),
          rw blocks (update-restore d.blocks p _ b),
          rw list (entries-detach p d.filter_module_list),
        )
