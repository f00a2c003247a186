-- ===== src/IntegerList/Memory.antt =====
-- The memory and the spin lock of src/SampleWdmDriver: operator new of its src/Operators.cpp,
-- AllocateMemory and DriverUnload of src/DriverMain.cpp, src/SpinLock.cpp and src/ScopedSpinLock.cpp.
use basic_windows_drivers.Base.{
  ℕ, ◌*◌, ◌≤◌, ◌≡◌, Bool, true, false, List, ◌∷◌, if◌then◌else◌, ◌==◌, arith,
}
use basic_windows_drivers.Base.NtStatus.{NtStatus, success, insufficient_resources}

-- ExAllocatePool2, from the flags, the number of bytes and the tag to the address, 0 if it fails; operator
-- new[], which the repository does not have, from the pool type and the number of bytes to the address;
-- RtlCopyUnicodeString, from the destination's maximal length and the source's length, in bytes, and text
-- to the destination's; and KeAcquireSpinLockRaiseToDpc's IRQL.
pub record MemoryRoutines : Type 0 where
  pub allocate : ℕ → ℕ → ℕ → ℕ
  pub new_array : ℕ → ℕ → ℕ
  pub copy : ℕ → ℕ × List ℕ → ℕ × List ℕ
  pub dispatch_level : ℕ

-- What is documented of them: without a flag for the kind of pool (0x40, 0x80, 0x100) an allocation fails,
-- and a text that fits is copied as it is.
pub record IsDocumented (m : MemoryRoutines) : Type 0 where
  pub no_pool : (bytes tag : ℕ) → (m.allocate 0 bytes tag ≡ 0) × (m.allocate 1 bytes tag ≡ 0)
  pub whole :
      (maximum size : ℕ) (text : List ℕ)
      → size ≤ maximum
      → m.copy maximum (size, text) ≡ (size, text)

-- 'dcba', and NonPagedPool and PagedPool of POOL_TYPE.
abbrev pub driver_pool_tag : ℕ
driver_pool_tag = 0x64636261

abbrev pub non_paged_pool : ℕ
non_paged_pool = 0

abbrev pub paged_pool : ℕ
paged_pool = 1

-- g_RegistryPath, with the text in its buffer, and the memory that has been given back.
pub record Globals : Type 0 where
  pub size : ℕ
  pub maximum_length : ℕ
  pub buffer : ℕ
  pub text : List ℕ
  pub freed : List ℕ

-- The scope of a ScopedSpinLock: the IRQL, and whether the lock is held.
pub record Processor : Type 0 where
  pub irql : ℕ
  pub held : Bool

module _ (m : MemoryRoutines) where
  -- operator new.
  unfoldable pub new : ℕ → ℕ → ℕ
  new pool_type n = m.allocate pool_type n driver_pool_tag

  -- AllocateMemory of a path with this length in bytes and this text.
  unfoldable pub allocate_memory : ℕ → List ℕ → Globals → Globals × NtStatus
  allocate_memory size text g =
      let g = record g { buffer = m.new_array paged_pool (2 * size) } in
      if g.buffer == 0
      then (g, insufficient_resources)
      else let (copied, text') = m.copy size (size, text) in
        (record g { maximum_length = size; size = copied; text = text' }, success)

  -- ScopedSpinLock's constructor, with the old IRQL, and its destructor.
  unfoldable pub scoped_spin_lock : Processor → Processor × ℕ
  scoped_spin_lock p = (record { irql = m.dispatch_level; held = true }, p.irql)

-- KeInitializeSpinLock.
unfoldable pub spin_lock : Processor → Processor
spin_lock p = record p { held = false }

unfoldable pub destroy_scoped_spin_lock : ℕ → Processor → Processor
destroy_scoped_spin_lock old_irql p = record { irql = old_irql; held = false }

-- operator delete.
unfoldable pub delete : ℕ → List ℕ → List ℕ
delete p freed = if p == 0 then freed else p ∷ freed

unfoldable pub driver_unload : Globals → Globals
unfolding delete
driver_unload g = record g { freed = delete g.buffer g.freed }

-- As documented, since a POOL_TYPE is no pool flag, operator new fails for both pools.
pub new-refused :
    (m : MemoryRoutines) (bytes : ℕ)
    → IsDocumented m
    → (new m non_paged_pool bytes ≡ 0) × (new m paged_pool bytes ≡ 0)
unfolding new
new-refused m bytes documented = documented.no_pool bytes driver_pool_tag

-- Where RtlCopyUnicodeString copies as documented, an AllocateMemory that succeeds leaves the path's
-- length and text, and a room of twice its length that unloading the driver gives back.
pub allocate_memory-driver_unload :
    (m : MemoryRoutines) (size : ℕ) (text : List ℕ) (g : Globals)
    → ((maximum n : ℕ) (t : List ℕ) → n ≤ maximum → m.copy maximum (n, t) ≡ (n, t))
    → (allocate_memory m size text g).1 ≡ success
    → let g' = (allocate_memory m size text g).0 in
      (g'.size ≡ size)
      × (g'.text ≡ text)
      × ((driver_unload g').freed ≡ m.new_array paged_pool (2 * size) ∷ g.freed)
unfolding allocate_memory driver_unload
allocate_memory-driver_unload m size text g whole ok =
    ground (arith, whole size size text (omega arith))
