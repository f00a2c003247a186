-- ===== src/Booster/Device.antt =====
-- The driver of src/PriorityBooster: main.cpp, PriorityBooster.cpp and PriorityBoosterCommon.hpp. The
-- calls that it makes of the system are its trace, newest first. A pointer is a number, null is 0.
use basic_windows_drivers.Base.{
  ℕ, ◌||◌, not, List, ◌∷◌, Option, none, some, if◌then◌else◌, ◌==◌, ltb,
}
use basic_windows_drivers.Base.Int.{ℤ, pos, ltb_ℤ}
use basic_windows_drivers.Base.NtStatus.{
  NtStatus, success, invalid_parameter, buffer_too_small, invalid_device_request, NtMacros,
}

pub data Call : Type 0 where
  lookup_thread : ℕ → NtStatus → Call
  set_priority_thread : ℕ → ℤ → Call
  dereference_object : ℕ → Call
  -- IoCompleteRequest, with the status and the information in the IRP.
  complete_request : NtStatus → ℕ → Call
  create_device : NtStatus → Call
  create_symbolic_link : NtStatus → Call
  delete_symbolic_link : Call
  delete_device : Call

-- The macro CTL_CODE of the kit, and the constants that it is given.
pub record Kit : Type 0 where
  pub ctl_code : ℕ → ℕ → ℕ → ℕ → ℕ
  pub method_neither : ℕ
  pub file_any_access : ℕ

-- IOCTL_PRIORITY_BOOSTER_SET_PRIORITY.
unfoldable pub ioctl_set_priority : Kit → ℕ
ioctl_set_priority kit = kit.ctl_code 32768 2048 kit.method_neither kit.file_any_access

pub record ThreadData : Type 0 where
  pub thread_id : ℕ
  pub priority : ℤ

-- sizeof(ThreadData): a 32-bit ULONG and a 32-bit int.
abbrev pub thread_data_size : ℕ
thread_data_size = 8

-- The parameters of the IRP's stack location. `none` is a null buffer.
pub record StackLocation : Type 0 where
  pub io_control_code : ℕ
  pub input_buffer_length : ℕ
  pub type3_input_buffer : Option ThreadData

-- What PsLookupThreadByThreadId answers for a thread's identifier: its status and the thread.
abbrev pub Threads : Type 0
Threads = ℕ → NtStatus × ℕ

unfoldable pub create_close : List Call → List Call × NtStatus
create_close trace = (complete_request success 0 ∷ trace, success)

-- The body of the switch's case.
unfoldable pub set_priority : NtMacros → Threads → StackLocation → List Call → List Call × NtStatus
set_priority nt threads stack trace =
    if ltb stack.input_buffer_length thread_data_size
    then (trace, buffer_too_small)
    else elim stack.type3_input_buffer [
      | none ↦ (trace, invalid_parameter)
      | some request ↦
          if ltb_ℤ request.priority (pos 1) || ltb_ℤ (pos 31) request.priority
          then (trace, invalid_parameter)
          else let (status, thread) = threads request.thread_id in
            let trace = lookup_thread thread status ∷ trace in
            if not (nt.nt_success status) then (trace, status) else (
              dereference_object thread ∷ set_priority_thread thread request.priority ∷ trace,
              status,
            )
    ]

unfoldable pub device_control :
    NtMacros → Kit → Threads → StackLocation → List Call → List Call × NtStatus
device_control nt kit threads stack trace =
    let (trace, status) =
      if stack.io_control_code == ioctl_set_priority kit
      then set_priority nt threads stack trace
      else (trace, invalid_device_request) in
    (complete_request status 0 ∷ trace, status)

-- DriverEntry, with what IoCreateDevice and IoCreateSymbolicLink answer.
unfoldable pub driver_entry : NtMacros → NtStatus → NtStatus → List Call → List Call × NtStatus
driver_entry nt device_status link_status trace =
    let trace = create_device device_status ∷ trace in
    if not (nt.nt_success device_status)
    then (trace, device_status)
    else let trace = create_symbolic_link link_status ∷ trace in
      if not (nt.nt_success link_status) then (trace, link_status) else (trace, success)

unfoldable pub driver_unload : List Call → List Call
driver_unload trace = delete_device ∷ delete_symbolic_link ∷ trace
