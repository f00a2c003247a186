-- ===== src/Sockets/Connecting.antt =====
-- Which address Connect of src/WFPController/WinSock/wfpcontroller.winsock.socket.cpp ends at, and when
-- the time to live is set.
use basic_windows_drivers.Base.{
  ℕ, ◌≡◌, ◌≢◌, refl, Bool, true, false, ◌&&◌, List, [], ◌∷◌, Option, none, some, if◌then◌else◌,
  ◌==◌, All, Bool-cases, Option-cases, inl, inr, arith,
}
use basic_windows_drivers.Sockets.Socket.{
  invalid_socket, Call, get_addr_info, set_option, connect_socket, failed_connecting, Outcome,
  returned, thrown, World, Address, call, set_handle, set_socket_ttl, connect_address, try_address,
  and_then, connect_loop, check_connected, connect,
}

-- The first address that can be connected to.
unfoldable pub first_reachable : List Address → Option Address
first_reachable [] = none
first_reachable (a ∷ addresses) =
    let later = first_reachable addresses in if a.connect_ok then some a else later

-- WinSock gives a handle for the address, and closes it again.
abbrev pub IsUsable : Address → Type 0
IsUsable a = (a.opened ≢ invalid_socket) × (a.close_ok ≡ true)

-- The object after a loop that found an address.
abbrev pub ConnectedTo : Address → World × Outcome → Type 0
ConnectedTo a (w, outcome) =
    (outcome ≡ returned) × (w.object.socket ≡ a.opened) × (w.object.address_family ≡ a.family)

try_lem :
    (a : Address) (w : World)
    → IsUsable a
    → w.object.preconnect_ttl ≡ 0
    → ((try_address a w).1 ≡ returned)
      × ((try_address a w).0.object.preconnect_ttl ≡ 0)
      × ((try_address a w).0.object.socket ≡ (if a.connect_ok then a.opened else invalid_socket))
      × ((try_address a w).0.object.address_family ≡ a.family)
unfolding try_address connect_address call set_handle
try_lem a w u t = ground arith

loop_stops :
    (addresses : List Address) (w : World)
    → w.object.socket ≢ invalid_socket
    → connect_loop addresses w ≡ (w, returned)
unfolding connect_loop
loop_stops [] w h = refl
loop_stops (a ∷ addresses) w h = ground arith

loop_step :
    (a : Address) (addresses : List Address) (w : World)
    → w.object.socket ≡ invalid_socket
    → (try_address a w).1 ≡ returned
    → connect_loop (a ∷ addresses) w ≡ connect_loop addresses (try_address a w).0
unfolding connect_loop and_then
loop_step a addresses w h r = ground arith

loop_none :
    (addresses : List Address) (w : World)
    → All IsUsable addresses
    → w.object.preconnect_ttl ≡ 0
    → w.object.socket ≡ invalid_socket
    → first_reachable addresses ≡ none
    → ((connect_loop addresses w).1 ≡ returned)
      × ((connect_loop addresses w).0.object.socket ≡ invalid_socket)
unfolding first_reachable
loop_none [] w u t h n = unfold connect_loop in (refl, h)
loop_none (a ∷ addresses) w (u, us) t h n =
    let (r, t', s, f) = try_lem a w u t in
    let fails : a.connect_ok ≡ false = ground arith in
    let closed : (try_address a w).0.object.socket ≡ invalid_socket = ground (arith, s) in
    let rest = loop_none addresses (try_address a w).0 us t' closed (ground arith) in
    ground (arith, loop_step a addresses w h r, rest)

loop_some :
    (addresses : List Address) (w : World) (b : Address)
    → All IsUsable addresses
    → w.object.preconnect_ttl ≡ 0
    → w.object.socket ≡ invalid_socket
    → first_reachable addresses ≡ some b
    → ConnectedTo b (connect_loop addresses w) × (b.opened ≢ invalid_socket)
unfolding first_reachable
loop_some [] w b u t h n = cc
loop_some (a ∷ addresses) w b (u, us) t h n =
    let (r, t', s, f) = try_lem a w u t in
    elim (Bool-cases a.connect_ok) [
      | inl e ↦
          let same : a ≡ b = ground arith in
          let stop = loop_stops addresses (try_address a w).0 (ground arith) in
          ground (arith, loop_step a addresses w h r, stop, s, f)
      | inr e ↦
          let closed : (try_address a w).0.object.socket ≡ invalid_socket = ground (arith, s) in
          let rest = loop_some addresses (try_address a w).0 b us t' closed (ground arith) in
          ground (arith, loop_step a addresses w h r, rest)
    ]

-- How Connect ends at an address, or without one.
abbrev pub ending : Option Address → Outcome × ℕ
ending none = (thrown failed_connecting, invalid_socket)
ending (some b) = (returned, b.opened)

-- If the name is resolved, no time to live is asked for, and WinSock opens and closes the sockets that
-- it is asked to, Connect returns with the handle of the first address that can be connected to, and
-- throws, with no handle, if there is none.
pub connect-first_reachable :
    (addresses : List Address) (w : World)
    → All IsUsable addresses
    → w.object.preconnect_ttl ≡ 0
    → let (w', outcome) = connect 0 addresses w in
      (outcome, w'.object.socket) ≡ ending (first_reachable addresses)
unfolding connect check_connected and_then call set_handle
connect-first_reachable addresses w u t =
    let w1 = record w {
      object = record (w.object) { socket = invalid_socket };
      trace = get_addr_info 0 ∷ w.trace;
    } in
    elim (Option-cases (first_reachable addresses)) [
      | inl n ↦ ground (arith, loop_none addresses w1 u t refl n)
      | inr (b, n) ↦ ground (arith, loop_some addresses w1 b u t refl n)
    ]

-- The last option set on a handle is the time to live.
abbrev just_set : ℕ → ℕ → List Call → Bool
just_set ttl h (set_option h' t ok ∷ trace) = h == h' && t == ttl && ok
just_set ttl h _ = false

-- Each call of connect follows at once on the setting of the time to live on its handle.
abbrev pub ttl_first : ℕ → List Call → Bool
ttl_first ttl [] = true
ttl_first ttl (connect_socket h ok ∷ trace) =
    let rest = ttl_first ttl trace in just_set ttl h trace && rest
ttl_first ttl (_ ∷ trace) = ttl_first ttl trace

abbrev TtlFirst : ℕ → World → Type 0
TtlFirst ttl w = (w.object.preconnect_ttl ≡ ttl) × (ttl_first ttl w.trace ≡ true)

try_address-TtlFirst :
    (ttl : ℕ) (a : Address) (w : World)
    → ttl ≢ 0
    → TtlFirst ttl w
    → TtlFirst ttl (try_address a w).0
unfolding try_address connect_address set_socket_ttl call set_handle
try_address-TtlFirst ttl a w n h = ground arith

and_then-TtlFirst :
    (ttl : ℕ) (r : World × Outcome) (next : World → World × Outcome)
    → TtlFirst ttl (r.0)
    → ((w : World) → TtlFirst ttl w → TtlFirst ttl (next w).0)
    → TtlFirst ttl (and_then r next).0
unfolding and_then
and_then-TtlFirst ttl (w, returned) next h goes_on = goes_on w h
and_then-TtlFirst ttl (w, thrown e) next h goes_on = h

connect_loop-TtlFirst :
    (ttl : ℕ) (addresses : List Address) (w : World)
    → ttl ≢ 0
    → TtlFirst ttl w
    → TtlFirst ttl (connect_loop addresses w).0
unfolding connect_loop
connect_loop-TtlFirst ttl [] w n h = h
connect_loop-TtlFirst ttl (a ∷ addresses) w n h =
    elim (Bool-cases (w.object.socket == invalid_socket)) [
      | inr e ↦ rw e h
      | inl e ↦ rw e (
          and_then-TtlFirst ttl (try_address a w) (connect_loop addresses)
            (try_address-TtlFirst ttl a w n h)
            (λ w' h'. connect_loop-TtlFirst ttl addresses w' n h'))
    ]

check_connected-TtlFirst :
    (ttl : ℕ) (w : World) → TtlFirst ttl w → TtlFirst ttl (check_connected w).0
unfolding check_connected
check_connected-TtlFirst ttl w h = ground arith

-- With a time to live asked for, other than 0, every call of connect that Connect makes, on every
-- branch and for every address, follows at once on a successful setting of that time to live on
-- the same handle, if the calls before it did so.
pub connect-ttl_first :
    (ttl status : ℕ) (addresses : List Address) (w : World)
    → ttl ≢ 0
    → w.object.preconnect_ttl ≡ ttl
    → ttl_first ttl w.trace ≡ true
    → ttl_first ttl (connect status addresses w).0.trace ≡ true
unfolding connect call set_handle
connect-ttl_first ttl status addresses w n t h =
    let w1 = record w {
      object = record (w.object) { socket = invalid_socket };
      trace = get_addr_info status ∷ w.trace;
    } in
    let found =
      and_then-TtlFirst ttl (connect_loop addresses w1) check_connected
        (connect_loop-TtlFirst ttl addresses w1 n (t, h)) (check_connected-TtlFirst ttl) in
    ground (arith, found.1)
