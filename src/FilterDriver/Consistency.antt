-- ===== src/FilterDriver/Consistency.antt =====
-- The driver's life as a step relation: modules of src/FilterDriver/main.cpp are attached, called
-- and detached in any order, and the list of modules and the memory stay in step.
use basic_windows_drivers.Base.{
  ℕ, suc, ◌-◌, ◌≡◌, ◌≢◌, ◌⊎◌, refl, sym, subst, ◌∙◌, ap, Bool, false, List, [], ◌∷◌, Option, none,
  some, is_some, if◌then◌else◌, ◌==◌, Option-cases, inl, inr, arith,
}
use basic_windows_drivers.FilterDriver.Ndis.{NdisStatus, NdisFlags, Nbl, acquire_lock, release_lock}
use basic_windows_drivers.FilterDriver.Module.{MsFilter, World}
use basic_windows_drivers.FilterDriver.DataPath.{
  add_sends, track_and_send, filter_send_net_buffer_lists, filter_send_net_buffer_lists_complete,
  filter_receive_net_buffer_lists, filter_return_net_buffer_lists,
}
use basic_windows_drivers.FilterDriver.Control.{
  filter_pause, filter_restart, filter_device_pnp_event_notify, filter_set_module_options,
}
use basic_windows_drivers.FilterDriver.Run.{Event, send, send_complete, handle, run}
use basic_windows_drivers.FilterDriver.Driver.{ListApi, Driver, update, count, erase}
use basic_windows_drivers.FilterDriver.Attach.{
  AttachParameters, AttachReplies, new_filter, context_size, filter_attach, filter_detach,
}
use basic_windows_drivers.FilterDriver.Attachment.{
  attached_filter, detached, filter_detach_lem, attached_lem, attach-failed,
}

-- No handler gives a module a name of its own.
module _ (flags : NdisFlags) (dbg : Bool) where
  add_sends-filter_name :
      (nbls : List Nbl) (w : World) → (add_sends nbls w).1.filter.filter_name ≡ w.filter.filter_name
  unfolding add_sends
  add_sends-filter_name [] w = refl
  add_sends-filter_name (nbl ∷ nbls) w = add_sends-filter_name nbls _

  track_and_send-filter_name :
      (nbls : List Nbl) (port send_flags : ℕ) (form : Bool) (w : World)
      → (track_and_send flags nbls port send_flags form w).1.filter.filter_name
        ≡ w.filter.filter_name
  unfolding track_and_send
  track_and_send-filter_name nbls port send_flags form w =
      ground (arith, add_sends-filter_name nbls (record w { trace = acquire_lock form ∷ w.trace }))

  handle-filter_name :
      (event : Event) (w : World)
      → (handle flags dbg event w).filter.filter_name ≡ w.filter.filter_name
  unfolding handle filter_send_net_buffer_lists filter_send_net_buffer_lists_complete
      filter_receive_net_buffer_lists filter_return_net_buffer_lists filter_pause filter_restart
      filter_device_pnp_event_notify filter_set_module_options
  handle-filter_name (send nbls port f) w =
      let form = flags.test_send_at_dispatch_level f in
      let tested = record w { trace = release_lock form ∷ acquire_lock form ∷ w.trace } in
      ground (
        arith,
        track_and_send-filter_name nbls port f form w,
        track_and_send-filter_name nbls port f form tested,
      )
  handle-filter_name (send_complete nbls f) w = ground arith
  handle-filter_name _ w = ground arith

  run-filter_name :
      (events : List Event) (w : World)
      → (run flags dbg events w).filter.filter_name ≡ w.filter.filter_name
  unfolding run
  run-filter_name [] w = refl
  run-filter_name (event ∷ events) w =
      run-filter_name events (handle flags dbg event w) ∙ handle-filter_name event w

success_cases : (s : NdisStatus) → (s ≡ NdisStatus.success) ⊎ (s ≢ NdisStatus.success)
success_cases NdisStatus.success = inl refl
success_cases _ = inr (λ e. cc)

count-erase :
    (a b : ℕ) (l : List ℕ) (n : ℕ)
    → count b l ≡ suc n
    → count a (erase b l) ≡ count a l - (if a == b then 1 else 0)
count-erase a b [] n h = omega arith
count-erase a b (c ∷ l) n h = ground (arith, count-erase a b l n)

module _ {Links : Type 0} (api : ListApi Links) (sizeof_ms_filter : ℕ) where
  open api use {entries}

  -- Every live module stands in the list once and nothing else does, the blocks allocated are those
  -- of the live modules, and no module has a name of its own to free.
  pub record IsConsistent (d : Driver Links) : Type 0 where
    pub listed :
        (p : ℕ) → count p (entries d.filter_module_list) ≡ (if is_some (d.filters p) then 1 else 0)
    pub allocated : (p : ℕ) → is_some (d.blocks p) ≡ is_some (d.filters p)
    pub unnamed : (p : ℕ) (f : MsFilter) → d.filters p ≡ some f → f.filter_name.buffer ≡ 0

  -- What NDIS can have the driver do: attach (the memory that it is given is not in use), detach a
  -- live module, or make any calls into one.
  pub data Step (d : Driver Links) : Driver Links → Type 0 where
    attach :
        (handle context : ℕ) (parameters : AttachParameters) (replies : AttachReplies)
        → d.blocks replies.allocated ≡ none
        → Step d (filter_attach api sizeof_ms_filter d handle context parameters replies).0
    detach :
        {d' : Driver Links} (p : ℕ) → filter_detach api sizeof_ms_filter d p ≡ some d' → Step d d'
    calls :
        (flags : NdisFlags) (dbg : Bool) (p : ℕ) (f : MsFilter) (events : List Event)
        → d.filters p ≡ some f
        → Step d (record d {
          filters =
              update d.filters p
                (some (run flags dbg events (record { filter = f; trace = [] })).filter);
        })

  pub data Reach (d : Driver Links) : Driver Links → Type 0 where
    here : Reach d d
    next : {d' d'' : Driver Links} → Reach d d' → Step d' d'' → Reach d d''

  none_of_is_some : {V : Type 0} (o : Option V) → is_some o ≡ false → o ≡ none
  none_of_is_some o h = ground arith

  attached-IsConsistent :
      (d d' : Driver Links) (p size : ℕ) (f : MsFilter)
      → IsConsistent d
      → d.blocks p ≡ none
      → f.filter_name.buffer ≡ 0
      → d'.filters ≡ update d.filters p (some f)
      → d'.blocks ≡ update d.blocks p (some size)
      → d'.filter_module_list ≡ api.insert_head_list p d.filter_module_list
      → IsConsistent d'
  attached-IsConsistent d d' p size f c fresh z filters blocks list = record {
    listed = λ q.
        rw (filters, list, api.entries-insert p d.filter_module_list)
          (ground (arith, c.listed q, c.allocated q));
    allocated = λ q. rw (filters, blocks) (ground (arith, c.allocated q));
    unnamed = λ q g e. ground (arith, c.unnamed q g, ap (λ (h : ℕ → Option MsFilter). h q) filters);
  }

  detached-IsConsistent :
      (d : Driver Links) (p : ℕ) (f : MsFilter)
      → IsConsistent d
      → d.filters p ≡ some f
      → IsConsistent (detached api sizeof_ms_filter d p)
  detached-IsConsistent d p f c e =
      let once : count p (entries d.filter_module_list) ≡ 1 = ground (arith, c.listed p) in
      record {
        listed = λ q.
            rw (api.entries-remove p d.filter_module_list 0 once)
              (ground (arith, c.listed q, count-erase q p (entries d.filter_module_list) 0 once));
        allocated = λ q. ground (arith, c.allocated q);
        unnamed = λ q g h. ground (arith, c.unnamed q g);
      }

  attach-IsConsistent :
      (d : Driver Links) (handle context : ℕ) (parameters : AttachParameters)
      (replies : AttachReplies)
      → IsConsistent d
      → d.blocks replies.allocated ≡ none
      → IsConsistent (filter_attach api sizeof_ms_filter d handle context parameters replies).0
  unfolding new_filter
  attach-IsConsistent d handle context parameters replies c fresh =
      let r = filter_attach api sizeof_ms_filter d handle context parameters replies in
      let p = replies.allocated in
      let dead : d.filters p ≡ none =
        none_of_is_some (d.filters p) (sym (c.allocated p) ∙ ap is_some fresh) in
      elim (success_cases r.1) [
        | inl ok ↦
            let (filters, list, bytes, blocks) =
              attached_lem api sizeof_ms_filter d handle context parameters replies ok in
            attached-IsConsistent d r.0 p (context_size api sizeof_ms_filter parameters)
              (attached_filter api sizeof_ms_filter handle parameters p) c fresh refl filters blocks
              list
        | inr failed ↦
            let (filters, blocks, list) =
              attach-failed api sizeof_ms_filter d handle context parameters replies failed dead
                fresh in
            record {
              listed = λ q. rw (filters, list) (c.listed q);
              allocated = λ q. rw (filters, blocks) (c.allocated q);
              unnamed = λ q f. rw filters (c.unnamed q f);
            }
      ]

  calls-IsConsistent :
      (d : Driver Links) (p : ℕ) (f g : MsFilter)
      → IsConsistent d
      → d.filters p ≡ some f
      → g.filter_name ≡ f.filter_name
      → IsConsistent (record d { filters = update d.filters p (some g) })
  calls-IsConsistent d p f g c e n = record {
    listed = λ q. ground (arith, c.listed q);
    allocated = λ q. ground (arith, c.allocated q);
    unnamed = λ q h eq. ground (arith, c.unnamed q h, c.unnamed p f e);
  }

  detach_live :
      (d : Driver Links) (p : ℕ)
      → is_some (filter_detach api sizeof_ms_filter d p) ≡ is_some (d.filters p)
  unfolding filter_detach
  detach_live d p = ground arith

  Step-IsConsistent : {d d' : Driver Links} → Step d d' → IsConsistent d → IsConsistent d'
  Step-IsConsistent {d} (attach module_handle context parameters replies fresh) c =
      attach-IsConsistent d module_handle context parameters replies c fresh
  Step-IsConsistent {d} {d'} (detach p e) c = elim (Option-cases (d.filters p)) [
    | inl dead ↦ cc (detach_live d p, ap is_some e, ap is_some dead)
    | inr (f, live) ↦
        subst IsConsistent
          (cc (filter_detach_lem api sizeof_ms_filter d p f live (c.unnamed p f live)))
          (detached-IsConsistent d p f c live)
  ]
  Step-IsConsistent {d} (calls flags dbg p f events live) c =
      calls-IsConsistent d p f _ c live
        (run-filter_name flags dbg events (record { filter = f; trace = [] }))

  -- However modules are attached, called and detached, from a consistent driver: every live module
  -- stands in the list exactly once and nothing else stands there, the blocks allocated are those of
  -- the live modules, so nothing leaks, and no module has a name that would be freed.
  pub Reach-IsConsistent : {d d' : Driver Links} → Reach d d' → IsConsistent d → IsConsistent d'
  Reach-IsConsistent here c = c
  Reach-IsConsistent (next r s) c = Step-IsConsistent s (Reach-IsConsistent r c)

  -- In a consistent driver a module that stands in the list can be detached without a fault, and then
  -- stands there no more.
  pub detach_total :
      (d : Driver Links) (p : ℕ)
      → IsConsistent d
      → count p (entries d.filter_module_list) ≡ 1
      → (d' : Driver Links) × (filter_detach api sizeof_ms_filter d p ≡ some d')
        × (count p (entries d'.filter_module_list) ≡ 0)
  detach_total d p c once = elim (Option-cases (d.filters p)) [
    | inl dead ↦ cc (once, c.listed p, dead)
    | inr (f, live) ↦ (
      detached api sizeof_ms_filter d p,
      filter_detach_lem api sizeof_ms_filter d p f live (c.unnamed p f live),
      ground (arith, (detached-IsConsistent d p f c live).listed p),
    )
  ]
