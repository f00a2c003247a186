-- ===== src/FilterDriver/Names.antt =====
-- The names that FilterAttach (src/FilterDriver/main.cpp) copies behind the module's context.
use basic_windows_drivers.Base.{ℕ, ◌+◌, ◌≤◌, ◌<◌, ◌≡◌, ◌∙◌, ◌⊎◌, List, length, arith}
use basic_windows_drivers.Base.Word.{ulong_mod}
use basic_windows_drivers.FilterDriver.Module.{UnicodeString}
use basic_windows_drivers.FilterDriver.Driver.{ListApi, read_memory}
use basic_windows_drivers.FilterDriver.Memory.{read_memory-move_memory, read_memory-before}
use basic_windows_drivers.FilterDriver.Attach.{
  AttachParameters, context_size, new_filter, fill_names, name_1, name_2, name_3,
}

-- The text of a UNICODE_STRING.
abbrev pub text_of : UnicodeString → (ℕ → ℕ) → List ℕ
text_of s bytes = read_memory s.buffer s.length bytes

module _ {Links : Type 0} (api : ListApi Links) (sizeof_ms_filter : ℕ) where
  pub names_lem :
      (handle : ℕ) (parameters : AttachParameters) (p : ℕ) (bytes : ℕ → ℕ)
      → let f = new_filter api sizeof_ms_filter handle parameters p in
        let bytes' = fill_names api sizeof_ms_filter parameters p bytes in
        (text_of f.filter_module_name bytes' ≡ parameters.filter_module_guid_name)
        × (text_of f.miniport_friendly_name bytes' ≡ parameters.base_miniport_instance_name)
        × (text_of f.miniport_name bytes' ≡ parameters.base_miniport_name)
  unfolding new_filter fill_names name_1 name_2 name_3
  names_lem handle parameters p bytes = (
    read_memory-before _ _ _ _ _ (omega arith)
        ∙ (read_memory-before _ _ _ _ _ (omega arith) ∙ read_memory-move_memory _ _ _),
    read_memory-before _ _ _ _ _ (omega arith) ∙ read_memory-move_memory _ _ _,
    read_memory-move_memory _ _ _,
  )

  pub fill_names-outside :
      (parameters : AttachParameters) (p : ℕ) (bytes : ℕ → ℕ) (a : ℕ)
      → sizeof_ms_filter
          + length parameters.filter_module_guid_name
          + length parameters.base_miniport_instance_name
          + length parameters.base_miniport_name
        < ulong_mod
      → (a < p + sizeof_ms_filter) ⊎ (p + context_size api sizeof_ms_filter parameters ≤ a)
      → fill_names api sizeof_ms_filter parameters p bytes a ≡ bytes a
  unfolding fill_names name_1 name_2 name_3 context_size
  fill_names-outside parameters p bytes a small out = ground (arith)
