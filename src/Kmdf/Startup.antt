-- ===== src/Kmdf/Startup.antt =====
-- How the drivers src/EmptyKMDFDriver and src/WDFTestDriver start and stop.
use basic_windows_drivers.Base.{
  ℕ, ◌≡◌, Bool, true, false, ◌&&◌, ◌||◌, not, List, [], ◌∷◌, if◌then◌else◌, ◌==◌, ltb, arith,
}
use basic_windows_drivers.Base.NtStatus.{NtStatus, success, NtMacros}
use basic_windows_drivers.Kmdf.Framework.{
  Call, control_device_init_allocate, device_create, queue_create, create_symbolic_link,
  create_device_interface, start_tracing, stop_tracing,
}
use basic_windows_drivers.Kmdf.EmptyDriver as Empty
use basic_windows_drivers.Kmdf.TestDriver as Test

module _ (nt : NtMacros) where
  -- The WDFDEVICE_INIT that has been allocated and that no device has been made of, or 0.
  abbrev pub pending_init : List Call → ℕ
  pending_init [] = 0
  pending_init (control_device_init_allocate p ∷ trace) = p
  pending_init (device_create p s ∷ trace) =
      let before = pending_init trace in if nt.nt_error s then before else 0
  pending_init (_ ∷ trace) = pending_init trace

  -- Whether applications can open the device by its symbolic link.
  abbrev pub is_linked : List Call → Bool
  is_linked [] = false
  is_linked (create_symbolic_link d s ∷ trace) =
      let before = is_linked trace in if nt.nt_error s then before else true
  is_linked (_ ∷ trace) = is_linked trace

  -- If nothing was called before, then after DriverEntry of EmptyKMDFDriver the device has its symbolic
  -- link exactly if DriverEntry gave no error and has a device object, and the WDFDEVICE_INIT is left
  -- over, where it got that far, exactly if naming or creating the device failed.
  pub driver_entry-is_linked :
      (replies : Empty.Replies) (g : Empty.Globals)
      → g.trace ≡ []
      → let (g', status) = Empty.driver_entry nt replies g in
        (is_linked g'.trace ≡ (not (nt.nt_error status) && not (g'.driver_device_object == 0)))
        × (pending_init g'.trace ≡ (
            if ltb 0 replies.safe_boot_mode || nt.nt_error replies.driver_status
            then 0
            else if nt.nt_error replies.name_status || nt.nt_error replies.device_status
            then replies.device_init
            else 0))
  unfolding Empty.driver_entry Empty.create_device Empty.finish Empty.call
  driver_entry-is_linked replies g h = ground (
    arith,
    nt.nt_success_success,
    nt.nt_error-nt_success success,
    nt.nt_error_failed,
    nt.nt_error_safe_mode,
  )

  abbrev pub is_tracing : List Call → Bool
  is_tracing [] = false
  is_tracing (start_tracing ∷ trace) = true
  is_tracing (stop_tracing ∷ trace) = false
  is_tracing (_ ∷ trace) = is_tracing trace

  -- DriverEntry of WDFTestDriver leaves tracing on exactly if it succeeds, and the cleanup of the driver
  -- object turns it off.
  pub driver_entry-is_tracing :
      (status : NtStatus) (trace : List Call)
      → let (trace', status') = Test.driver_entry nt status trace in
        (is_tracing trace' ≡ nt.nt_success status')
        × (is_tracing (Test.driver_context_cleanup trace') ≡ false)
  unfolding Test.driver_entry Test.driver_context_cleanup
  driver_entry-is_tracing status trace = ground arith

  -- The interfaces and the queues that a device has.
  abbrev pub has_interface : List Call → Bool
  has_interface [] = false
  has_interface (create_device_interface d s ∷ trace) =
      let before = has_interface trace in nt.nt_success s || before
  has_interface (_ ∷ trace) = has_interface trace

  abbrev pub has_queue : List Call → Bool
  has_queue [] = false
  has_queue (queue_create d how s ∷ trace) =
      let before = has_queue trace in nt.nt_success s || before
  has_queue (_ ∷ trace) = has_queue trace

  -- If nothing was called before, then WDFTestDriver's EvtDeviceAdd succeeds exactly if the device has its
  -- interface and its queue when it returns.
  pub device_add-has_queue :
      (replies : Test.Replies) (device_init : ℕ) (context : Test.DeviceContext)
      → let (trace, context', status) = Test.device_add nt replies device_init context [] in
        nt.nt_success status ≡ (has_interface trace && has_queue trace)
  unfolding Test.device_add Test.create_device Test.create_interface Test.queue_initialize
  device_add-has_queue replies device_init context = ground arith
