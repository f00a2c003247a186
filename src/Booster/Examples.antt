-- ===== src/Booster/Examples.antt =====
-- The theorems on the priority booster at concrete inputs.
use basic_windows_drivers.Base.{
  ℕ, ◌+◌, ◌*◌, ◌≡◌, refl, true, [], ◌∷◌, Option, none, some, if◌then◌else◌, ◌==◌,
}
use basic_windows_drivers.Base.Int.{pos, ltb_ℤ}
use basic_windows_drivers.Base.NtStatus.{success, not_found}
use basic_windows_drivers.Base.SampleMacros.{macros}
use basic_windows_drivers.Booster.Device.{
  Kit, ioctl_set_priority, StackLocation, Threads, set_priority, device_control,
}
use basic_windows_drivers.Booster.Client.{Text, Library, exit_code, main}
use basic_windows_drivers.Booster.Requests.{
  completed, set_calls, run, change, device_control-completed, device_control-change,
  main-device_control,
}

-- CTL_CODE packs a device type, an access, a function and a method.
abbrev kit : Kit
kit = record {
  ctl_code =
      λ device function method access. device * 65536 + access * 16384 + function * 4 + method;
  method_neither = 3;
  file_any_access = 0;
}

-- The system knows thread 7 only.
abbrev threads : Threads
threads id = if id == 7 then (success, 4096) else (not_found, 0)

abbrev boost : StackLocation
boost = record {
  io_control_code = ioctl_set_priority kit;
  input_buffer_length = 8;
  type3_input_buffer = some (record { thread_id = 7; priority = pos 20 });
}

abbrev too_high : StackLocation
too_high = record boost { type3_input_buffer = some (record { thread_id = 7; priority = pos 32 }) }

boost_sets : set_calls (run macros kit threads (too_high ∷ boost ∷ [])) ≡ (4096, pos 20) ∷ []
unfolding device_control set_priority ltb_ℤ ioctl_set_priority
boost_sets = refl

device_control-completed_example :
    completed (device_control macros kit threads boost []).0
    ≡ ((device_control macros kit threads boost []).1, 0) ∷ []
device_control-completed_example = (device_control-completed macros kit threads boost []).0

device_control-change_example :
    set_calls (device_control macros kit threads boost []).0 ≡ (4096, pos 20) ∷ []
unfolding change ioctl_set_priority
device_control-change_example = (device_control-change macros kit threads boost []).0

-- A library that reads one digit.
abbrev digit : Text → Option ℕ
digit (c ∷ []) = some c
digit _ = none

abbrev library : Library
library = record {
  stoul = digit;
  stoi = λ s. elim (digit s) [ none ↦ none | some n ↦ some (pos n) ];
  create_file = 64;
  device_io_control = λ request. true;
}

main-device_control_example :
    set_calls (device_control macros kit threads boost []).0 ≡ (4096, pos 20) ∷ []
unfolding main
main-device_control_example =
    (main-device_control macros kit threads library (7 ∷ []) (20 ∷ []) [] (exit_code 0) boost [] 7
      (pos 20) refl refl refl).0
