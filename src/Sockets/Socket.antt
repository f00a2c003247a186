-- ===== src/Sockets/Socket.antt =====
-- The class of src/WFPController/WinSock/wfpcontroller.winsock.socket.cpp. Its calls of WinSock are a
-- trace, newest first, with what WinSock answered; an exception is a result.
use basic_windows_drivers.Base.{
  ℕ, Bool, ◌||◌, not, List, [], ◌∷◌, Option, none, some, if◌then◌else◌, ◌==◌,
}

-- INVALID_SOCKET, the greatest value of a 64-bit SOCKET, and the two address families.
abbrev pub invalid_socket : ℕ
invalid_socket = 18446744073709551615

abbrev pub af_inet : ℕ
af_inet = 2

abbrev pub af_inet6 : ℕ
af_inet6 = 23

pub data Call : Type 0 where
  get_addr_info : ℕ → Call
  open_socket : ℕ → Call
  get_option : ℕ → Bool → Call
  set_option : ℕ → ℕ → Bool → Call
  connect_socket : ℕ → Bool → Call
  close_socket : ℕ → Bool → Call
  send_bytes : ℕ → List ℕ → Bool → Call
  receive_bytes : ℕ → ℕ → Call

-- The places that throw a WinSockError.
pub data WinSockError : Type 0 where
  no_valid_state unknown_address_family option_not_supported setsockopt_failed : WinSockError
  get_addr_info_failed socket_failed closesocket_failed failed_connecting : WinSockError
  socket_not_valid send_failed recv_failed : WinSockError

pub data Outcome : Type 0 where
  returned : Outcome
  thrown : WinSockError → Outcome

pub record Socket : Type 0 where
  pub host : List ℕ
  pub port_number : ℕ
  pub socket : ℕ
  pub address_family : ℕ
  pub preconnect_ttl : ℕ

pub record World : Type 0 where
  pub object : Socket
  pub trace : List Call

-- An address that GetAddrInfoW found, and what WinSock answers while it is tried: the handle, and
-- whether getsockopt, setsockopt, connect and closesocket succeed.
pub record Address : Type 0 where
  pub family : ℕ
  pub opened : ℕ
  pub get_option_ok : Bool
  pub set_option_ok : Bool
  pub connect_ok : Bool
  pub close_ok : Bool

unfoldable pub call : Call → World → World
call c w = record w { trace = c ∷ w.trace }

unfoldable pub set_handle : ℕ → World → World
set_handle h w = record w { object = record (w.object) { socket = h } }

-- `!m_socket || m_socket == InvalidSocket`.
unfoldable pub is_closed : Socket → Bool
is_closed s = s.socket == 0 || s.socket == invalid_socket

unfoldable pub new_socket : List ℕ → ℕ → Socket
new_socket host port_number = record {
  host = host;
  port_number = port_number;
  socket = invalid_socket;
  address_family = 0;
  preconnect_ttl = 0;
}

-- The default constructor.
unfoldable pub empty_socket : Socket
unfolding new_socket
empty_socket = new_socket [] 0

-- Close, and so the destructor.
unfoldable pub close : Bool → World → World
close close_ok w =
    if is_closed w.object
    then w
    else set_handle invalid_socket (call (close_socket w.object.socket close_ok) w)

-- Move, with the object that is moved from.
unfoldable pub move : Bool → Socket → World → World × Socket
move close_ok other w =
    (record (close close_ok w) { object = other }, record other { socket = invalid_socket })

-- The move constructor: `uninitialised` is what its memory holds before.
unfoldable pub move_construct : Bool → Socket → Socket → List Call → World × Socket
unfolding move
move_construct close_ok uninitialised other trace =
    move close_ok other (record { object = uninitialised; trace = trace })

-- GetHost, GetPort and GetHandle.
abbrev pub get_host : Socket → List ℕ
get_host s = s.host

abbrev pub get_port : Socket → ℕ
get_port s = s.port_number

abbrev pub get_handle : Socket → ℕ
get_handle s = s.socket

unfoldable pub set_socket_ttl : ℕ → Address → World → World × Outcome
set_socket_ttl ttl a w =
    if is_closed w.object
    then (w, thrown no_valid_state)
    else if not (w.object.address_family == af_inet || w.object.address_family == af_inet6)
    then (w, thrown unknown_address_family)
    else let w = call (get_option w.object.socket a.get_option_ok) w in
      if not a.get_option_ok
      then (w, thrown option_not_supported)
      else let w = call (set_option w.object.socket ttl a.set_option_ok) w in
        if not a.set_option_ok then (w, thrown setsockopt_failed) else (w, returned)

unfoldable pub set_preconnect_ttl : ℕ → World → World
set_preconnect_ttl ttl w = record w { object = record (w.object) { preconnect_ttl = ttl } }

-- The call of connect and what follows it in the loop.
unfoldable pub connect_address : Address → World → World × Outcome
connect_address a w =
    let w = call (connect_socket w.object.socket a.connect_ok) w in
    if a.connect_ok
    then (record w { object = record (w.object) { address_family = a.family } }, returned)
    else let w = call (close_socket w.object.socket a.close_ok) w in
      if a.close_ok then (set_handle invalid_socket w, returned) else (w, thrown closesocket_failed)

-- The body of the loop for one address.
unfoldable pub try_address : Address → World → World × Outcome
try_address a w =
    let w = call (open_socket a.opened) (set_handle a.opened w) in
    if a.opened == invalid_socket
    then (w, thrown socket_failed)
    else let w = record w { object = record (w.object) { address_family = a.family } } in
      let (w, outcome) =
        if w.object.preconnect_ttl == 0
        then (w, returned)
        else set_socket_ttl w.object.preconnect_ttl a w in
      elim outcome [ thrown e ↦ (w, thrown e) | returned ↦ connect_address a w ]

-- Goes on after a step that did not throw.
unfoldable pub and_then : World × Outcome → (World → World × Outcome) → World × Outcome
and_then (w, returned) next = next w
and_then (w, thrown e) next = (w, thrown e)

unfoldable pub connect_loop : List Address → World → World × Outcome
connect_loop [] w = (w, returned)
connect_loop (a ∷ addresses) w =
    if not (w.object.socket == invalid_socket)
    then (w, returned)
    else and_then (try_address a w) (connect_loop addresses)

-- After the loop: no address could be connected to.
unfoldable pub check_connected : World → World × Outcome
check_connected w =
    if w.object.socket == invalid_socket then (w, thrown failed_connecting) else (w, returned)

-- Connect, with the status of GetAddrInfoW and its list.
unfoldable pub connect : ℕ → List Address → World → World × Outcome
connect status addresses w =
    let w = call (get_addr_info status) w in
    if not (status == 0)
    then (w, thrown get_addr_info_failed)
    else and_then (connect_loop addresses (set_handle invalid_socket w)) check_connected

unfoldable pub send : List ℕ → Bool → World → World × Outcome
send bytes send_ok w =
    if is_closed w.object
    then (w, thrown socket_not_valid)
    else let w = call (send_bytes w.object.socket bytes send_ok) w in
      if send_ok then (w, returned) else (w, thrown send_failed)

-- Receive, with what recv answers: an error, or the bytes that it put at the start of the buffer,
-- which the code cuts to them.
unfoldable pub receive : ℕ → Option (List ℕ) → World → World × Outcome × List ℕ
receive bytes_to_read answer w =
    if is_closed w.object
    then (w, thrown socket_not_valid, [])
    else let w = call (receive_bytes w.object.socket bytes_to_read) w in
      elim answer [ none ↦ (w, thrown recv_failed, []) | some bytes ↦ (w, returned, bytes) ]
