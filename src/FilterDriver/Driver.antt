-- ===== src/FilterDriver/Driver.antt =====
-- The driver around its modules, src/FilterDriver/main.cpp: its globals, the memory that it
-- allocates, the list of modules, and what it asks of the system. LIST_ENTRY lists are the kit's:
-- an interface with the documented laws. A null handle or pointer is 0.
use basic_windows_drivers.Base.{
  ℕ, suc, ◌+◌, ◌-◌, ◌≡◌, Bool, ◌&&◌, List, [], ◌∷◌, Option, if◌then◌else◌, ◌==◌, leb, ltb, length,
  get_or,
}
use basic_windows_drivers.FilterDriver.Ndis.{NdisStatus}
use basic_windows_drivers.FilterDriver.Module.{MsFilter}

-- How often an address stands in a list, and the list without its first occurrence.
abbrev pub count : ℕ → List ℕ → ℕ
count a [] = 0
count a (b ∷ l) = (if a == b then 1 else 0) + count a l

abbrev pub erase : ℕ → List ℕ → List ℕ
erase a [] = []
erase a (b ∷ l) = if a == b then l else b ∷ erase a l

-- InitializeListHead, InsertHeadList, RemoveEntryList (documented for entries of the list only)
-- and IsListEmpty.
pub record ListApi (Links : Type 0) : Type 0 where
  pub entries : Links → List ℕ
  pub initialize_list_head : Links
  pub insert_head_list : ℕ → Links → Links
  pub remove_entry_list : ℕ → Links → Links
  pub is_list_empty : Links → Bool
  pub entries-initialize : entries initialize_list_head ≡ []
  pub entries-insert : (a : ℕ) (l : Links) → entries (insert_head_list a l) ≡ a ∷ entries l
  pub entries-remove :
      (a : ℕ) (l : Links) (n : ℕ)
      → count a (entries l) ≡ suc n
      → entries (remove_entry_list a l) ≡ erase a (entries l)

-- The handlers that the driver installs in NDIS_FILTER_DRIVER_CHARACTERISTICS.
pub data Handler : Type 0 where
  set_options attach detach restart pause set_filter_module_options : Handler
  send_net_buffer_lists return_net_buffer_lists send_net_buffer_lists_complete : Handler
  receive_net_buffer_lists device_pnp_event_notify : Handler

pub data DriverAction : Type 0 where
  allocate_list_lock free_list_lock acquire_list_lock release_list_lock : DriverAction
  allocate_memory free_memory : ℕ → DriverAction
  set_attributes : ℕ → ℕ → NdisStatus → DriverAction
  register_filter_driver : List Handler → NdisStatus → DriverAction
  deregister_filter_driver : ℕ → DriverAction
  register_device : NdisStatus → DriverAction
  deregister_device : ℕ → DriverAction
  complete_request : ℕ → DriverAction

pub record DeviceExtension : Type 0 where
  pub signature : ℕ
  pub handle : ℕ

-- `filters` is the MS_FILTER at an address, `blocks` the size of the block allocated there, and
-- `bytes` the raw memory. `dispatch` is the device's dispatch table, by major function.
pub record Driver (Links : Type 0) : Type 0 where
  pub filter_driver_handle : ℕ
  pub filter_driver_object : ℕ
  pub ndis_filter_device_handle : ℕ
  pub ndis_device_object : ℕ
  pub device_extension : Option DeviceExtension
  pub filter_module_list : Links
  pub filters : ℕ → Option MsFilter
  pub blocks : ℕ → Option ℕ
  pub bytes : ℕ → ℕ
  pub trace : List DriverAction

abbrev pub update {ℓ} : {V : Type ℓ} → (ℕ → V) → ℕ → V → ℕ → V
update f p v q = if p == q then v else f q

-- A copy of bytes to an address, and the bytes that stand from an address on.
abbrev pub move_memory : ℕ → List ℕ → (ℕ → ℕ) → ℕ → ℕ
move_memory destination source bytes a =
    if leb destination a && ltb a (destination + length source)
    then get_or source (a - destination) 0
    else bytes a

abbrev pub read_memory : ℕ → ℕ → (ℕ → ℕ) → List ℕ
read_memory a ℕ.zero bytes = []
read_memory a (suc n) bytes = bytes a ∷ read_memory (a + 1) n bytes
