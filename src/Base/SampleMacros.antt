-- ===== src/Base/SampleMacros.antt =====
-- One reading of NT_SUCCESS and NT_ERROR for the examples: the named failures are errors, and
-- STATUS_SUCCESS and the codes without a name are not.
use mathlib.Core.Path.{◌≡◌, refl}
use mathlib.Core.Bool.{Bool, true, false, not}
use native.Mathlib.Omega.{arith}
use basic_windows_drivers.Base.NtStatus.{NtStatus, success, other, NtMacros}

abbrev pub is_error : NtStatus → Bool
is_error success = false
is_error (other code) = false
is_error _ = true

pub is_error-not : (s : NtStatus) → is_error s ≡ true → not (is_error s) ≡ false
is_error-not s h = ground arith

abbrev pub macros : NtMacros
macros = record {
  nt_success = λ s. not (is_error s);
  nt_error = is_error;
  nt_success_success = refl;
  nt_error-nt_success = is_error-not;
  nt_error_failed = refl;
  nt_error_buffer = refl;
  nt_error_parameter = refl;
  nt_error_request = refl;
  nt_error_handle = refl;
  nt_error_safe_mode = refl;
}
