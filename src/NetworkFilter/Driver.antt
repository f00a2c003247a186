-- ===== src/NetworkFilter/Driver.antt =====
-- src/NetworkFilterDriver2/main.cpp: DriverEntry, the driver's device and its dispatch routines, and
-- DriverUnload; and the handlers of FilterCallbacks.cpp. A handle is a number, and null is 0.
use basic_windows_drivers.Base.{
  ℕ, suc, Bool, true, List, [], ◌∷◌, Option, none, some, if◌then◌else◌, ◌==◌,
}
use basic_windows_drivers.Base.NtStatus.{NtStatus}
use basic_windows_drivers.FilterDriver.Ndis.{NdisStatus, is_success}

-- The handlers that are not null in FChars.
pub data Handler : Type 0 where
  attach detach restart pause : Handler

-- A call of NDIS, with the handle that it gives or takes.
pub data Action : Type 0 where
  register_filter_driver : List Handler → NdisStatus → ℕ → Action
  deregister_filter_driver : ℕ → Action
  register_device : ℕ → NdisStatus → ℕ → Action
  deregister_device : ℕ → Action

-- FILTER_DEVICE_EXTENSION.
pub record Extension : Type 0 where
  pub signature : ℕ
  pub handle : ℕ

-- The globals of Globals.hpp, the extension of the device object, DriverObject->DriverUnload as whether it
-- is set, and the calls made so far, newest first.
pub record Driver : Type 0 where
  pub ndis_filter_device_handle : ℕ
  pub filter_driver_handle : ℕ
  pub filter_driver_object : ℕ
  pub ndis_device_object : ℕ
  pub extension : Option Extension
  pub can_unload : Bool
  pub trace : List Action

-- What NDIS answers to the calls of DriverEntry.
pub record Replies : Type 0 where
  pub filter_status : NdisStatus
  pub filter_handle : ℕ
  pub device_status : NdisStatus
  pub device_handle : ℕ
  pub device_object : ℕ

-- 'FTDR'.
abbrev signature_value : ℕ
signature_value = 0x46544452

unfoldable pub filter_deregister_device : Driver → Driver
filter_deregister_device d =
    let called =
      if d.ndis_filter_device_handle == 0
      then d.trace
      else deregister_device d.ndis_filter_device_handle ∷ d.trace in
    record d { ndis_filter_device_handle = 0; trace = called }

-- NDIS writes the object and the handle if it succeeds.
unfoldable pub filter_register_device : Replies → Driver → Driver × NdisStatus
filter_register_device replies d =
    let called =
      register_device d.filter_driver_handle replies.device_status replies.device_handle
      ∷ d.trace in
    if is_success replies.device_status
    then (
      record d {
        ndis_device_object = replies.device_object;
        ndis_filter_device_handle = replies.device_handle;
        extension = some (record { signature = signature_value; handle = d.filter_driver_handle });
        trace = called;
      },
      replies.device_status,
    )
    else (record d { trace = called }, replies.device_status)

unfoldable pub driver_unload : Driver → Driver
driver_unload d =
    let d = filter_deregister_device d in
    record d { trace = deregister_filter_driver d.filter_driver_handle ∷ d.trace }

-- The part of DriverEntry up to NdisFRegisterFilterDriver, which writes the handle if it succeeds.
unfoldable pub register : ℕ → Replies → Driver → Driver
register driver_object replies d = record d {
  filter_driver_object = driver_object;
  can_unload = true;
  filter_driver_handle = if is_success replies.filter_status then replies.filter_handle else 0;
  trace =
      register_filter_driver (attach ∷ detach ∷ restart ∷ pause ∷ []) replies.filter_status
        replies.filter_handle
      ∷ d.trace;
}

-- The part of DriverEntry after it.
unfoldable pub registered : Replies → Driver → Driver × NdisStatus
registered replies d =
    let (d, status) = filter_register_device replies d in
    if is_success status
    then (d, status)
    else (record d { trace = deregister_filter_driver d.filter_driver_handle ∷ d.trace }, status)

unfoldable pub driver_entry : ℕ → Replies → Driver → Driver × NdisStatus
driver_entry driver_object replies d =
    let d = register driver_object replies d in
    if is_success replies.filter_status then registered replies d else (d, replies.filter_status)

-- An IRP: whether its stack location has a file object, IoStatus, and how often it was completed.
pub record Irp : Type 0 where
  pub file_object : ℕ
  pub status : Option NtStatus
  pub information : ℕ
  pub completed : ℕ

-- Every case of the switch does nothing.
unfoldable pub filter_dispatch : Irp → Irp × NtStatus
filter_dispatch irp =
    (record irp { status = some NtStatus.success; completed = suc irp.completed }, NtStatus.success)

-- The switch on the control code does nothing either.
unfoldable pub filter_device_io_control : Irp → Irp × NtStatus
filter_device_io_control irp = if irp.file_object == 0 then (irp, NtStatus.unsuccessful) else (
  record irp { status = some NtStatus.success; information = 0; completed = suc irp.completed },
  NtStatus.success,
)

pub data MajorFunction : Type 0 where
  create cleanup close device_control : MajorFunction

-- The entries of DispatchTable that are not null.
unfoldable pub dispatch : MajorFunction → Irp → Irp × NtStatus
dispatch create irp = filter_dispatch irp
dispatch cleanup irp = filter_dispatch irp
dispatch close irp = filter_dispatch irp
dispatch device_control irp = filter_device_io_control irp

-- FilterAttach, FilterDetach, FilterRestart and FilterPause, with what those answer that answer something.
unfoldable pub run_handler : Handler → Option NdisStatus
run_handler attach = some NdisStatus.success
run_handler detach = none
run_handler restart = some NdisStatus.success
run_handler pause = some NdisStatus.success
