-- ===== src/Sockets/Ownership.antt =====
-- Which handles the class of src/WFPController/WinSock/wfpcontroller.winsock.socket.cpp has open, and
-- which of them an object owns.
use basic_windows_drivers.Base.{
  ℕ, ◌≡◌, ◌≢◌, true, false, ◌||◌, List, [], ◌∷◌, ◌++◌, if◌then◌else◌, ◌==◌, All, Bool-cases, inl,
  inr, arith,
}
use basic_windows_drivers.Sockets.Socket.{
  invalid_socket, Call, get_addr_info, open_socket, close_socket, Outcome, returned, thrown, Socket,
  World, Address, call, set_handle, is_closed, close, move, set_socket_ttl, connect_address,
  try_address, and_then, connect_loop, check_connected, connect,
}

abbrev pub without : ℕ → List ℕ → List ℕ
without h [] = []
without h (x ∷ xs) = let rest = without h xs in if x == h then xs else x ∷ rest

-- The handles that a trace leaves open, the newest first.
abbrev pub open_handles : List Call → List ℕ
open_handles [] = []
open_handles (open_socket h ∷ trace) =
    let rest = open_handles trace in if h == invalid_socket then rest else h ∷ rest
open_handles (close_socket h ok ∷ trace) =
    let rest = open_handles trace in if ok then without h rest else rest
open_handles (_ ∷ trace) = open_handles trace

-- The handle that an object answers for.
abbrev pub owned : Socket → List ℕ
owned s = if s.socket == 0 || s.socket == invalid_socket then [] else s.socket ∷ []

-- The open handles are the object's own, before the others.
abbrev Owns : List ℕ → World → Type 0
Owns others w = open_handles w.trace ≡ owned w.object ++ others

set_socket_ttl-Owns :
    (others : List ℕ) (ttl : ℕ) (a : Address) (w : World)
    → Owns others w
    → Owns others (set_socket_ttl ttl a w).0
unfolding set_socket_ttl call
set_socket_ttl-Owns others ttl a w h = ground arith

connect_address-Owns :
    (others : List ℕ) (a : Address) (w : World)
    → is_closed w.object ≡ false
    → Owns others w
    → Owns others (connect_address a w).0
unfolding connect_address call set_handle is_closed
connect_address-Owns others a w c h = ground arith

set_socket_ttl-object :
    (ttl : ℕ) (a : Address) (w : World) → (set_socket_ttl ttl a w).0.object ≡ w.object
unfolding set_socket_ttl call
set_socket_ttl-object ttl a w = ground arith

-- The object with the address's new handle, just opened.
abbrev with_handle : Address → World → World
with_handle a w = record w {
  object = record (w.object) { socket = a.opened; address_family = a.family };
  trace = open_socket a.opened ∷ w.trace;
}

try_address-Owns :
    (others : List ℕ) (a : Address) (w : World)
    → w.object.socket ≡ invalid_socket
    → a.opened ≢ 0
    → Owns others w
    → Owns others (try_address a w).0
unfolding try_address call set_handle is_closed
try_address-Owns others a w c n h =
    let w1 = with_handle a w in
    let w2 = (set_socket_ttl w.object.preconnect_ttl a w1).0 in
    ground (
      arith,
      set_socket_ttl-Owns others w.object.preconnect_ttl a w1,
      set_socket_ttl-object w.object.preconnect_ttl a w1,
      connect_address-Owns others a w1,
      connect_address-Owns others a w2,
    )

and_then-Owns :
    (others : List ℕ) (r : World × Outcome) (next : World → World × Outcome)
    → Owns others (r.0)
    → ((w : World) → Owns others w → Owns others (next w).0)
    → Owns others (and_then r next).0
unfolding and_then
and_then-Owns others (w, returned) next h goes_on = goes_on w h
and_then-Owns others (w, thrown e) next h goes_on = h

connect_loop-Owns :
    (others : List ℕ) (addresses : List Address) (w : World)
    → All (λ (a : Address). a.opened ≢ 0) addresses
    → Owns others w
    → Owns others (connect_loop addresses w).0
unfolding connect_loop
connect_loop-Owns others [] w n h = h
connect_loop-Owns others (a ∷ addresses) w (n, ns) h =
    elim (Bool-cases (w.object.socket == invalid_socket)) [
      | inr e ↦ rw e h
      | inl e ↦ rw e (
          and_then-Owns others (try_address a w) (connect_loop addresses)
            (try_address-Owns others a w (ground arith) n h)
            (λ w' h'. connect_loop-Owns others addresses w' ns h'))
    ]

check_connected-Owns :
    (others : List ℕ) (w : World) → Owns others w → Owns others (check_connected w).0
unfolding check_connected
check_connected-Owns others w h = ground arith

-- If the object has its own handle open, before others, and WinSock gives no null handle, then,
-- whatever the addresses answer and however Connect ends, the handles that are open after it are
-- the one that the object then has, and the others from before. If the name was resolved, these
-- include the handle that the object had before, which it no longer has.
pub connect-open_handles :
    (others : List ℕ) (status : ℕ) (addresses : List Address) (w : World)
    → All (λ (a : Address). a.opened ≢ 0) addresses
    → open_handles w.trace ≡ owned w.object ++ others
    → let (w', outcome) = connect status addresses w in
      open_handles w'.trace
      ≡ owned w'.object ++ (if status == 0 then owned w.object ++ others else others)
unfolding connect call set_handle
connect-open_handles others status addresses w n h =
    let w1 = record w {
      object = record (w.object) { socket = invalid_socket };
      trace = get_addr_info status ∷ w.trace;
    } in
    let others' = owned w.object ++ others in
    let found =
      and_then-Owns others' (connect_loop addresses w1) check_connected
        (connect_loop-Owns others' addresses w1 n h) (check_connected-Owns others') in
    elim (Bool-cases (status == 0)) [ inl e ↦ rw e found | inr e ↦ rw e h ]

close-open_handles :
    (others : List ℕ) (w : World)
    → open_handles w.trace ≡ owned w.object ++ others
    → open_handles (close true w).trace ≡ others
unfolding close call set_handle is_closed
close-open_handles others w h = ground arith

-- Where closesocket succeeds in the destructor and WinSock gives no null handle, an object that
-- had no handle leaves open what was open before, once it has connected, with whatever outcome,
-- and been destroyed.
pub close-connect :
    (others : List ℕ) (status : ℕ) (addresses : List Address) (w : World)
    → All (λ (a : Address). a.opened ≢ 0) addresses
    → owned w.object ≡ []
    → open_handles w.trace ≡ others
    → open_handles (close true (connect status addresses w).0).trace ≡ others
close-connect others status addresses w n o h =
    let opened = connect-open_handles others status addresses w n (ground arith) in
    close-open_handles others (connect status addresses w).0 (ground arith)

-- If two objects have their own handles open and closesocket succeeds, then after a move the
-- object that is moved to has closed its own handle and has the other one's, the object that is
-- moved from has none, and nothing else is opened or closed.
pub move-open_handles :
    (others : List ℕ) (other : Socket) (w : World)
    → open_handles w.trace ≡ owned w.object ++ (owned other ++ others)
    → let (w', other') = move true other w in
      (open_handles w'.trace ≡ owned w'.object ++ (owned other' ++ others))
      × (owned w'.object ≡ owned other)
      × (owned other' ≡ [])
unfolding move close call set_handle is_closed
move-open_handles others other w h = ground arith
