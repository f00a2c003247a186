-- ===== src/Sockets/Examples.antt =====
-- The theorems on the controller's socket at concrete inputs.
use basic_windows_drivers.Base.{ℕ, ◌≡◌, refl, true, false, List, [], ◌∷◌, ◌++◌, arith}
use basic_windows_drivers.Strings.Examples.{ascii, ascii-IsDocumented}
use basic_windows_drivers.Errors.Format.{codes}
use basic_windows_drivers.Errors.Translate as Messages
use basic_windows_drivers.Errors.Classes.{Error}
use basic_windows_drivers.Errors.Released.{IsReleased}
use basic_windows_drivers.Errors.Reading.{Says}
use basic_windows_drivers.Errors.Examples.{one_message, here}
use basic_windows_drivers.Sockets.Reporting.{win32, failed_connecting, failed_connecting_lem}
use basic_windows_drivers.Sockets.Socket.{
  World, Address, Outcome, returned, connect, open_socket, invalid_socket,
}
use basic_windows_drivers.Sockets.Connecting.{first_reachable, connect-first_reachable}
use basic_windows_drivers.Sockets.Ownership.{open_handles, owned, connect-open_handles}

abbrev unreachable : Address
unreachable = record {
  family = 23;
  opened = 100;
  get_option_ok = true;
  set_option_ok = true;
  connect_ok = false;
  close_ok = true;
}

abbrev reachable : Address
reachable = record unreachable { family = 2; opened = 104; connect_ok = true }

abbrev addresses : List Address
addresses = unreachable ∷ reachable ∷ []

abbrev idle : World
idle = record {
  object = record {
    host = 104 ∷ [];
    port_number = 80;
    socket = invalid_socket;
    address_family = 0;
    preconnect_ttl = 0;
  };
  trace = [];
}

-- An object that is connected already.
abbrev busy : World
busy = record { object = record (idle.object) { socket = 96 }; trace = open_socket 96 ∷ [] }

abbrev ttl_1 : World
ttl_1 = record idle { object = record (idle.object) { preconnect_ttl = 1 } }

-- The object that is moved to, when the other one is open.
abbrev moved_to : World
moved_to = record idle { trace = busy.trace }

connect-open_handles_example :
    open_handles (connect 0 addresses busy).0.trace
    ≡ owned (connect 0 addresses busy).0.object ++ (96 ∷ [])
connect-open_handles_example =
    connect-open_handles [] 0 addresses busy (omega arith, (omega arith, tt)) refl

-- The first address refuses and the second one takes the connection.
connect-first_reachable_example :
    let (w, outcome) = connect 0 addresses idle in
    ◌≡◌ {A = Outcome × ℕ} (outcome, w.object.socket) (returned, 104)
unfolding first_reachable
connect-first_reachable_example =
    connect-first_reachable addresses idle ((omega arith, refl), ((omega arith, refl), tt)) refl

-- "ab", and ERROR_INVALID_FLAGS.
failed_connecting_lem_example :
    (e : Error) × (w : List Messages.Call) × (failed_connecting one_message ascii here here 1004
        (97 ∷ 98 ∷ [])
        80
        []
      ≡ (win32 e, w))
    × Says (codes "WideCharToMultiByte() [1] failed") 1004 (codes "Win32") e
    × IsReleased [] w
failed_connecting_lem_example =
    failed_connecting_lem one_message ascii (λ s. s) here here 1004 97 (98 ∷ []) 80 []
      ascii-IsDocumented (omega arith)
