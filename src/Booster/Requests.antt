-- ===== src/Booster/Requests.antt =====
-- What a device control request does: PriorityBoosterDeviceControl of
-- src/PriorityBooster/PriorityBooster.cpp, over any sequence of requests and from the client.
use basic_windows_drivers.Base.{
  ℕ, suc, ◌-◌, ◌≤◌, ◌≡◌, refl, inl, inr, Bool, true, false, not, ◌&&◌, ◌||◌, List, [], ◌∷◌, ◌++◌,
  none, some, if◌then◌else◌, ◌==◌, leb, All, Option-cases, Bool-cases, arith,
}
use basic_windows_drivers.Base.Int.{ℤ, pos, negsuc, ltb_ℤ}
use basic_windows_drivers.Base.NtStatus.{
  NtStatus, buffer_too_small, invalid_parameter, invalid_device_request, NtMacros,
}
use basic_windows_drivers.Booster.Device.{
  Call, lookup_thread, set_priority_thread, dereference_object, complete_request, Kit,
  ioctl_set_priority, ThreadData, thread_data_size, StackLocation, Threads, set_priority,
  device_control,
}
use basic_windows_drivers.Booster.Client.{Text, Library, Exit, main}

-- The requests completed, newest first.
abbrev pub completed : List Call → List (NtStatus × ℕ)
completed [] = []
completed (complete_request status information ∷ trace) = (status, information) ∷ completed trace
completed (_ ∷ trace) = completed trace

-- The priorities set, newest first.
abbrev pub set_calls : List Call → List (ℕ × ℤ)
set_calls [] = []
set_calls (set_priority_thread thread priority ∷ trace) = (thread, priority) ∷ set_calls trace
set_calls (_ ∷ trace) = set_calls trace

-- The references to a thread that the driver holds.
unfoldable pub references : NtMacros → ℕ → List Call → ℕ
references nt thread [] = 0
references nt thread (lookup_thread t s ∷ trace) =
    let before = references nt thread trace in
    if nt.nt_success s && t == thread then suc before else before
references nt thread (dereference_object t ∷ trace) =
    let before = references nt thread trace in if t == thread then before - 1 else before
references nt thread (_ ∷ trace) = references nt thread trace

-- A priority that a thread can have.
pub Valid : ℤ → Type 0
Valid priority = (n : ℕ) × (priority ≡ pos n) × (1 ≤ n) × (n ≤ 31)

abbrev pub is_valid : ℤ → Bool
is_valid (pos n) = leb 1 n && leb n 31
is_valid (negsuc n) = false

-- The requests that come down, newest first.
abbrev pub run : NtMacros → Kit → Threads → List StackLocation → List Call
run nt kit threads [] = []
run nt kit threads (stack ∷ earlier) =
    (device_control nt kit threads stack (run nt kit threads earlier)).0

is_valid-Valid : (priority : ℤ) → is_valid priority ≡ true → Valid priority
unfolding Valid
is_valid-Valid (pos n) h = (n, refl, ground arith, ground arith)
is_valid-Valid (negsuc n) h = cc

range_lem :
    (priority : ℤ) → not (ltb_ℤ priority (pos 1) || ltb_ℤ (pos 31) priority) ≡ is_valid priority
unfolding ltb_ℤ
range_lem (pos n) = ground arith
range_lem (negsuc n) = refl

-- What a request asks for, if its code, its length and its data are right and the system finds the
-- thread: the priority of one thread.
unfoldable pub change : NtMacros → Kit → Threads → StackLocation → List (ℕ × ℤ)
change nt kit threads stack = elim stack.type3_input_buffer [
  | none ↦ []
  | some d ↦
      let (status, thread) = threads d.thread_id in
      if stack.io_control_code == ioctl_set_priority kit
        && leb thread_data_size stack.input_buffer_length
        && is_valid d.priority
        && nt.nt_success status
      then (thread, d.priority) ∷ []
      else []
]

abbrev pub is_cons {ℓ} : {A : Type ℓ} → List A → Bool
is_cons [] = false
is_cons (x ∷ xs) = true

set_lem :
    (nt : NtMacros) (threads : Threads) (stack : StackLocation) (trace : List Call) (d : ThreadData)
    → stack.type3_input_buffer ≡ some d
    → (set_calls (set_priority nt threads stack trace).0
        ≡ (if leb thread_data_size stack.input_buffer_length
              && is_valid d.priority
              && nt.nt_success (threads d.thread_id).0
            then ((threads d.thread_id).1, d.priority) ∷ []
            else [])
          ++ set_calls trace)
      × (nt.nt_success (set_priority nt threads stack trace).1
          ≡ leb thread_data_size stack.input_buffer_length
            && is_valid d.priority
            && nt.nt_success (threads d.thread_id).0)
unfolding set_priority
set_lem nt threads stack trace d h =
    let p = range_lem d.priority in
    let b = nt.nt_error-nt_success buffer_too_small nt.nt_error_buffer in
    let c = nt.nt_error-nt_success invalid_parameter nt.nt_error_parameter in
    ground (arith, p, b, c)

null_lem :
    (nt : NtMacros) (threads : Threads) (stack : StackLocation) (trace : List Call)
    → stack.type3_input_buffer ≡ none
    → (set_calls (set_priority nt threads stack trace).0 ≡ set_calls trace)
      × (nt.nt_success (set_priority nt threads stack trace).1 ≡ false)
unfolding set_priority
null_lem nt threads stack trace h =
    let b = nt.nt_error-nt_success buffer_too_small nt.nt_error_buffer in
    let c = nt.nt_error-nt_success invalid_parameter nt.nt_error_parameter in ground (arith, b, c)

module _ (nt : NtMacros) (kit : Kit) (threads : Threads) where
  -- Each request is completed exactly once, with the status that the dispatch routine returns and no
  -- information, and no reference to any thread is left over.
  pub device_control-completed :
      (stack : StackLocation) (trace : List Call)
      → let (trace', status) = device_control nt kit threads stack trace in
        (completed trace' ≡ (status, 0) ∷ completed trace)
        × ((thread : ℕ) → references nt thread trace' ≡ references nt thread trace)
  unfolding device_control set_priority references
  device_control-completed stack trace = (ground arith, λ thread. ground arith)

  -- On every branch a request sets the priority that it asks for, if its code, length and data are
  -- right, the priority is from 1 to 31 and the system finds the thread, and no other priority; and
  -- it answers success exactly then.
  pub device_control-change :
      (stack : StackLocation) (trace : List Call)
      → let (trace', status) = device_control nt kit threads stack trace in
        (set_calls trace' ≡ change nt kit threads stack ++ set_calls trace)
        × (nt.nt_success status ≡ is_cons (change nt kit threads stack))
  unfolding device_control change
  device_control-change stack trace =
      let r = nt.nt_error-nt_success invalid_device_request nt.nt_error_request in
      elim (Option-cases stack.type3_input_buffer) [
        | inl e ↦ ground (arith, r, null_lem nt threads stack trace e)
        | inr (d, e) ↦ ground (arith, r, set_lem nt threads stack trace d e)
      ]

  change-append :
      (stack : StackLocation) (calls : List (ℕ × ℤ))
      → All (λ (call : ℕ × ℤ). Valid (call.1)) calls
      → All (λ (call : ℕ × ℤ). Valid (call.1)) (change nt kit threads stack ++ calls)
  unfolding change
  change-append stack calls h = elim (Option-cases stack.type3_input_buffer) [
    | inl e ↦ rw e h
    | inr (d, e) ↦
        let test =
          stack.io_control_code == ioctl_set_priority kit
          && leb thread_data_size stack.input_buffer_length
          && is_valid d.priority
          && nt.nt_success (threads d.thread_id).0 in
        elim (Bool-cases test) [
          | inl t ↦ rw (e, t) ((is_valid-Valid d.priority (ground arith), h))
          | inr t ↦ rw (e, t) h
        ]
  ]

  -- Whatever requests come down, every priority that the driver sets is from 1 to 31.
  pub run-Valid :
      (requests : List StackLocation)
      → All (λ (call : ℕ × ℤ). Valid (call.1)) (set_calls (run nt kit threads requests))
  run-Valid [] = tt
  run-Valid (stack ∷ earlier) =
      rw ((device_control-change stack (run nt kit threads earlier)).0)
        (change-append stack (set_calls (run nt kit threads earlier)) (run-Valid earlier))

  -- If the two arguments parse and the client sends a request, that request sets, in the driver,
  -- the priority and the thread of the arguments, if the priority is from 1 to 31 and the system
  -- finds the thread, and nothing else; and the driver answers it with success exactly then.
  pub main-device_control :
      (lib : Library) (thread_id priority : Text) (others : List Text) (exit : Exit)
      (request : StackLocation) (trace : List Call) (t : ℕ) (p : ℤ)
      → lib.stoul thread_id ≡ some t
      → lib.stoi priority ≡ some p
      → main kit lib (thread_id ∷ priority ∷ others) ≡ (exit, some request)
      → let set = is_valid p && nt.nt_success (threads t).0 in
        let (trace', status) = device_control nt kit threads request trace in
        (set_calls trace' ≡ (if set then ((threads t).1, p) ∷ set_calls trace else set_calls trace))
        × (nt.nt_success status ≡ set)
  unfolding main change
  main-device_control lib thread_id priority others exit request trace t p ht hp h =
      let sent : (request.io_control_code ≡ ioctl_set_priority kit)
          × (request.input_buffer_length ≡ thread_data_size)
          × (request.type3_input_buffer ≡ some (record { thread_id = t; priority = p })) =
        ground arith in
      ground (arith, device_control-change request trace, sent)
