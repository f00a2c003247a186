-- ===== src/Base/NtStatus.antt =====
-- NTSTATUS and the macros that test it. The codes that the source names are constructors, and
-- every other code that the system can return is `other`. The macros NT_SUCCESS and NT_ERROR are
-- the kit's: a record of tests, with the documented laws that the drivers rely on.
use Prim.Native.Nat.{ℕ}
use mathlib.Core.Path.{◌≡◌}
use mathlib.Core.Bool.{Bool, true, false}

pub data NtStatus : Type 0 where
  success unsuccessful not_found invalid_handle invalid_parameter buffer_too_small : NtStatus
  invalid_device_request insufficient_resources : NtStatus
  not_safe_mode_driver failed_driver_entry : NtStatus
  other : ℕ → NtStatus

pub record NtMacros : Type 0 where
  pub nt_success : NtStatus → Bool
  pub nt_error : NtStatus → Bool
  pub nt_success_success : nt_success success ≡ true
  pub nt_error-nt_success : (s : NtStatus) → nt_error s ≡ true → nt_success s ≡ false
  pub nt_error_failed : nt_error failed_driver_entry ≡ true
  pub nt_error_buffer : nt_error buffer_too_small ≡ true
  pub nt_error_parameter : nt_error invalid_parameter ≡ true
  pub nt_error_request : nt_error invalid_device_request ≡ true
  pub nt_error_handle : nt_error invalid_handle ≡ true
  pub nt_error_safe_mode : nt_error not_safe_mode_driver ≡ true
