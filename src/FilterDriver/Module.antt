-- ===== src/FilterDriver/Module.antt =====
-- One filter module: MS_FILTER of src/FilterDriver/NfdCore.hpp, and the state monad in which its
-- handlers run. Fields that no code of the driver reads (queues, event, OID request) are left out.
use basic_windows_drivers.Base.{ℕ, Bool, List, ◌∷◌}
use basic_windows_drivers.FilterDriver.Ndis.{
  FilterState, Action, acquire_lock, release_lock, write_state, write_outstanding_sends,
  write_outstanding_rcvs,
}

-- A UNICODE_STRING: lengths in bytes, and the buffer's address. A null pointer is 0.
pub record UnicodeString : Type 0 where
  pub length : ℕ
  pub maximum_length : ℕ
  pub buffer : ℕ

pub record MsFilter : Type 0 where
  pub ref_count : ℕ
  pub filter_handle : ℕ
  pub filter_module_name : UnicodeString
  pub miniport_friendly_name : UnicodeString
  pub miniport_name : UnicodeString
  pub miniport_if_index : ℕ
  pub state : FilterState
  pub outstanding_sends : ℕ
  pub outstanding_request : ℕ
  pub outstanding_rcvs : ℕ
  pub filter_name : UnicodeString
  pub calls_restart : ℕ
  pub track_receives : Bool
  pub track_sends : Bool

pub record World : Type 0 where
  pub filter : MsFilter
  pub trace : List Action

abbrev pub M : Type 0 → Type 0
M A = World → A × World

infixl 5 ◌>>=◌ ◌>>◌
abbrev pub ◌>>=◌ : {A B : Type 0} → M A → (A → M B) → M B
◌>>=◌ m f w = f (m w).0 (m w).1

abbrev pub ◌>>◌ : {B : Type 0} → M (Unit {0}) → M B → M B
◌>>◌ m k w = k (m w).1

abbrev pub pure : {A : Type 0} → A → M A
pure a w = (a, w)

abbrev pub gets : {A : Type 0} → (MsFilter → A) → M A
gets f w = (f w.filter, w)

abbrev pub call : Action → M (Unit {0})
call a w = (tt, record w { trace = a ∷ w.trace })

-- FILTER_ACQUIRE_LOCK and FILTER_RELEASE_LOCK on the module's lock.
abbrev pub filter_acquire_lock : Bool → M (Unit {0})
filter_acquire_lock dispatch_level = call (acquire_lock dispatch_level)

abbrev pub filter_release_lock : Bool → M (Unit {0})
filter_release_lock dispatch_level = call (release_lock dispatch_level)

abbrev pub set_state : FilterState → M (Unit {0})
set_state s w = (tt, record w { filter = record f { state = s }; trace = write_state s ∷ w.trace })
  where
    f : MsFilter
    f = w.filter

abbrev pub set_outstanding_sends : ℕ → M (Unit {0})
set_outstanding_sends n w = (
  tt,
  record w {
    filter = record f { outstanding_sends = n };
    trace = write_outstanding_sends n ∷ w.trace;
  },
)
  where
    f : MsFilter
    f = w.filter

abbrev pub set_outstanding_rcvs : ℕ → M (Unit {0})
set_outstanding_rcvs n w = (
  tt,
  record w {
    filter = record f { outstanding_rcvs = n };
    trace = write_outstanding_rcvs n ∷ w.trace;
  },
)
  where
    f : MsFilter
    f = w.filter
