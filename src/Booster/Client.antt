-- ===== src/Booster/Client.antt =====
-- The client, src/PriorityBoosterClient/PriorityBoosterClient.cpp. What it prints is left out.
use basic_windows_drivers.Base.{ℕ, Bool, List, ◌∷◌, Option, none, some, if◌then◌else◌, ◌==◌}
use basic_windows_drivers.Base.Int.{ℤ}
use basic_windows_drivers.Booster.Device.{Kit, ioctl_set_priority, thread_data_size, StackLocation}

abbrev pub Text : Type 0
Text = List ℕ

-- What main uses of the C++ library and of the system: std::stoul and std::stoi, where `none` is an
-- exception, the handle that CreateFileW opens, and whether DeviceIoControl succeeds.
pub record Library : Type 0 where
  pub stoul : Text → Option ℕ
  pub stoi : Text → Option ℤ
  pub create_file : ℕ
  pub device_io_control : StackLocation → Bool

-- How main ends: with an exit code, or with an exception that nobody catches.
pub data Exit : Type 0 where
  exit_code : ℕ → Exit
  uncaught : Exit

-- main, over the arguments that follow the program's name, and the request that it sends.
unfoldable pub main : Kit → Library → List Text → Exit × Option StackLocation
main kit lib (thread_id ∷ priority ∷ _) =
    if lib.create_file == 0 then (exit_code 1, none) else elim (lib.stoul thread_id) [
      | none ↦ (uncaught, none)
      | some t ↦ elim (lib.stoi priority) [
        | none ↦ (uncaught, none)
        | some p ↦
            let request : StackLocation = record {
              io_control_code = ioctl_set_priority kit;
              input_buffer_length = thread_data_size;
              type3_input_buffer = some (record { thread_id = t; priority = p });
            } in
            if lib.device_io_control request
            then (exit_code 0, some request)
            else (exit_code 1, some request)
      ]
    ]
main kit lib _ = (exit_code 0, none)
