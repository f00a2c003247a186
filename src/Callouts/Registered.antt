-- ===== src/Callouts/Registered.antt =====
-- Which callouts of src/WPFCalloutDriver are registered after DriverEntry and after DriverUnload.
use basic_windows_drivers.Base.{
  ℕ, ◌≡◌, ◌≢◌, Bool, true, false, not, ◌&&◌, List, [], ◌∷◌, ◌++◌, map, if◌then◌else◌, ◌==◌, arith,
}
use basic_windows_drivers.Base.NtStatus.{NtStatus, NtMacros}
use basic_windows_drivers.Callouts.System.{
  Callout, outbound_ipv4, inbound_icmp_error, outbound_icmp_error, outbound_tcp, inbound_tcp,
  inbound_ipv4, Call, driver_create, device_init_allocate, device_create, finish_initializing,
  callout_register, callout_unregister, Globals,
}
use basic_windows_drivers.Callouts.Registration.{
  call, EntryReplies, register_callout, register_all_callouts, unregister_all_callouts, clean_up,
  start_callouts, driver_entry, driver_unload,
}

-- A registration: the key, and the namespaces of the classify and the notify function.
abbrev pub Registration : Type 0
Registration = Callout × Callout × Callout

-- A callout under its own key with its own functions.
abbrev pub own : Callout → Registration
own c = (c, c, c)

abbrev number : Callout → ℕ
number outbound_ipv4 = 0
number inbound_icmp_error = 1
number outbound_icmp_error = 2
number outbound_tcp = 3
number inbound_tcp = 4
number inbound_ipv4 = 5

abbrev pub without : Callout → List Registration → List Registration
without key [] = []
without key (r ∷ rs) =
    let rest = without key rs in if number key == number (r.0) then rest else r ∷ rest

-- What the platform holds after a trace, oldest first. A call that answers an error changes nothing.
unfoldable pub registered : NtMacros → List Call → List Registration
registered nt [] = []
registered nt (callout_register key classify notify s ∷ trace) =
    let rest = registered nt trace in
    if nt.nt_error s then rest else rest ++ ((key, classify, notify) ∷ [])
registered nt (callout_unregister key s ∷ trace) =
    let rest = registered nt trace in if nt.nt_error s then rest else without key rest
registered nt (_ ∷ trace) = registered nt trace

abbrev pub all_callouts : List Callout
all_callouts =
    outbound_ipv4 ∷ inbound_icmp_error ∷ outbound_icmp_error ∷ outbound_tcp ∷ inbound_tcp ∷ []

-- The callouts before the first one that the platform refuses.
unfoldable pub accepted : NtMacros → (Callout → NtStatus) → List Callout → List Registration
accepted nt answers [] = []
accepted nt answers (c ∷ cs) =
    let rest = accepted nt answers cs in if nt.nt_error (answers c) then [] else own c ∷ rest

-- The answers with which DriverEntry comes to the registration.
abbrev pub comes_to_callouts : NtMacros → EntryReplies → Bool
comes_to_callouts nt r =
    (r.safe_boot_mode == 0)
    && not (nt.nt_error r.driver_status)
    && not (r.device_init == 0)
    && not (nt.nt_error r.device_status)
    && not (r.device_object == 0)

module _ (nt : NtMacros) where
  register_all-registered :
      (answers : Callout → NtStatus) (g : Globals)
      → (g.driver_device_object == 0) ≡ false
      → registered nt g.trace ≡ []
      → registered nt (register_all_callouts nt answers g).0.trace
        ≡ accepted nt answers all_callouts
  unfolding register_all_callouts register_callout call registered accepted
  register_all-registered answers g h e = ground arith

  clean_up-registered :
      (device_init : ℕ) (g : Globals)
      → registered nt (clean_up device_init g).trace ≡ registered nt g.trace
  unfolding clean_up call registered
  clean_up-registered device_init g = ground arith

  start_callouts-registered :
      (r : EntryReplies) (s : NtStatus) (g : Globals)
      → registered nt g.trace ≡ []
      → registered nt (start_callouts nt r s g).0.trace
        ≡ (if r.device_object == 0 then [] else accepted nt r.callout_status all_callouts)
  unfolding start_callouts call registered
  start_callouts-registered r s g h =
      let g' = record g {
        driver_device_object = r.device_object;
        trace = finish_initializing g.wdf_driver_device ∷ g.trace;
      } in
      let (g'', s') = register_all_callouts nt r.callout_status g' in
      ground (
        arith,
        clean_up-registered r.device_init_after g',
        clean_up-registered r.device_init_after g'',
        register_all-registered r.callout_status g',
      )

  -- From a start with no callout registered, and whatever the system answers, the callouts
  -- registered after DriverEntry are the ones before the first that the platform refused, each
  -- under its own key with its own functions, and none if an earlier step failed.
  pub driver_entry-registered :
      (r : EntryReplies) (g : Globals)
      → registered nt g.trace ≡ []
      → registered nt (driver_entry nt r g).0.trace
        ≡ (if comes_to_callouts nt r then accepted nt r.callout_status all_callouts else [])
  unfolding driver_entry call registered
  driver_entry-registered r g h =
      let created = record g { trace = driver_create r.driver_status ∷ g.trace } in
      let allocated = record created {
        trace = device_init_allocate r.device_init ∷ created.trace;
      } in
      let device = record allocated { trace = device_create r.device_status ∷ allocated.trace } in
      ground (
        arith,
        clean_up-registered r.device_init_after device,
        start_callouts-registered r r.device_status
            (record device { wdf_driver_device = r.device }),
      )

  unload-registered :
      (answers : Callout → NtStatus) (g : Globals)
      → ((c : Callout) → nt.nt_error (answers c) ≡ false)
      → registered nt (driver_unload answers g).trace
        ≡ without inbound_tcp (
            without outbound_tcp (
              without outbound_icmp_error
                (without inbound_icmp_error (without outbound_ipv4 (registered nt g.trace)))))
  unfolding driver_unload unregister_all_callouts call registered
  unload-registered answers g h = ground (
    arith,
    h outbound_ipv4,
    h inbound_icmp_error,
    h outbound_icmp_error,
    h outbound_tcp,
    h inbound_tcp,
  )

  -- From a start with no callout registered, unloading the driver after any entry, successful or
  -- not, leaves no callout registered, as long as the platform lets each callout go.
  pub driver_unload-registered :
      (r : EntryReplies) (answers : Callout → NtStatus) (g : Globals)
      → registered nt g.trace ≡ []
      → ((c : Callout) → nt.nt_error (answers c) ≡ false)
      → registered nt (driver_unload answers (driver_entry nt r g).0).trace ≡ []
  unfolding accepted
  driver_unload-registered r answers g h ok =
      let left = driver_entry-registered r g h in
      let gone = unload-registered answers (driver_entry nt r g).0 ok in ground (arith, left, gone)

  register_all-status :
      (answers : Callout → NtStatus) (g : Globals)
      → (g.driver_device_object == 0) ≡ false
      → nt.nt_error (register_all_callouts nt answers g).1 ≡ false
      → accepted nt answers all_callouts ≡ map own all_callouts
  unfolding register_all_callouts register_callout call accepted
  register_all-status answers g h e = ground arith

  start_callouts-status :
      (r : EntryReplies) (s : NtStatus) (g : Globals)
      → (r.device_object == 0) ≡ false
      → nt.nt_error (start_callouts nt r s g).1 ≡ false
      → accepted nt r.callout_status all_callouts ≡ map own all_callouts
  unfolding start_callouts call
  start_callouts-status r s g h e = ground (
    arith,
    register_all-status r.callout_status (record g {
      driver_device_object = r.device_object;
      trace = finish_initializing g.wdf_driver_device ∷ g.trace;
    }),
  )

  -- From a start with no callout registered, if DriverEntry answers no error, and the framework
  -- gave it its device object, all five callouts are registered, each under its own key with its
  -- own functions.
  pub driver_entry-all_callouts :
      (r : EntryReplies) (g : Globals)
      → registered nt g.trace ≡ []
      → (r.device_object == 0) ≡ false
      → nt.nt_error (driver_entry nt r g).1 ≡ false
      → registered nt (driver_entry nt r g).0.trace ≡ map own all_callouts
  unfolding driver_entry call
  driver_entry-all_callouts r g h o ok =
      let created = record g { trace = driver_create r.driver_status ∷ g.trace } in
      let allocated = record created {
        trace = device_init_allocate r.device_init ∷ created.trace;
      } in
      let device = record allocated { trace = device_create r.device_status ∷ allocated.trace } in
      ground (
        arith,
        driver_entry-registered r g h,
        nt.nt_error_failed,
        nt.nt_error_safe_mode,
        start_callouts-status r r.device_status (record device { wdf_driver_device = r.device }) o,
      )

  -- From a start with no callout registered and outside safe mode, if the framework makes the
  -- driver and the device but gives no device object, DriverEntry answers no error, with no
  -- callout registered.
  pub null_device_object :
      (r : EntryReplies) (g : Globals)
      → registered nt g.trace ≡ []
      → r.safe_boot_mode ≡ 0
      → nt.nt_error r.driver_status ≡ false
      → r.device_init ≢ 0
      → nt.nt_error r.device_status ≡ false
      → r.device_object ≡ 0
      → (nt.nt_error (driver_entry nt r g).1 ≡ false)
        × (registered nt (driver_entry nt r g).0.trace ≡ [])
  unfolding driver_entry start_callouts
  null_device_object r g h a b c d e = ground (arith, driver_entry-registered r g h)

  -- From a start with no callout registered, if DriverEntry comes to the registration, the
  -- platform accepts the first callout, and DriverEntry answers an error, then callouts are still
  -- registered.
  pub left_registered :
      (r : EntryReplies) (g : Globals)
      → registered nt g.trace ≡ []
      → comes_to_callouts nt r ≡ true
      → nt.nt_error (r.callout_status outbound_ipv4) ≡ false
      → nt.nt_error (driver_entry nt r g).1 ≡ true
      → registered nt (driver_entry nt r g).0.trace ≢ []
  unfolding accepted
  left_registered r g h c a e left = ground (arith, driver_entry-registered r g h)
