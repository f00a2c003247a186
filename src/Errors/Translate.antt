-- ===== src/Errors/Translate.antt =====
-- FormatCode and TranslateErrorCode of src/WFPController/Error/wfpcontroller.error.functions.cpp and
-- wfpcontroller.error.functions.ixx.
use basic_windows_drivers.Base.{ℕ, ◌+◌, ◌||◌, Bool, List, [], ◌∷◌, ◌++◌, if◌then◌else◌, ◌==◌}
use basic_windows_drivers.Strings.Text.{Text}
use basic_windows_drivers.Errors.Format.{codes, dword_text}

-- The template argument: std::string or std::wstring.
pub data StringType : Type 0 where
  narrow wide : StringType

-- The calls of the system, with what was given or answered: the handle of a module that LoadLibraryW loads,
-- 0 if it fails; FormatMessageA or FormatMessageW, with its flags, module and code, and the buffer that it
-- allocates, 0 if it fails; LocalFree of a buffer.
pub data Call : Type 0 where
  load_library : Text → ℕ → Call
  free_library : ℕ → Call
  format_message : StringType → ℕ → ℕ → ℕ → ℕ → Call
  local_free : ℕ → Call
  get_last_error : Call

-- What the system answers, by what it was asked before: a module handle; a buffer's address; what memory
-- has from there on; and an error number.
pub record System : Type 0 where
  pub load_library_w : List Call → Text → ℕ
  pub format_message_buffer : List Call → StringType → ℕ → ℕ → ℕ → ℕ
  pub memory : List Call → ℕ → Text
  pub last_error : List Call → ℕ
  -- __FUNCSIG__ in each FormatCode.
  pub function_signature : StringType → Text

-- A text that a null ends.
unfoldable pub until_null : Text → Text
until_null [] = []
until_null (c ∷ s) = let rest = until_null s in if c == 0 then [] else c ∷ rest

abbrev pub is_line_break : ℕ → Bool
is_line_break c = c == 10 || c == 13

-- std::erase_if.
unfoldable pub erase_if : (ℕ → Bool) → Text → Text
erase_if test [] = []
erase_if test (c ∷ s) = let rest = erase_if test s in if test c then rest else c ∷ rest

-- The calls so far, newest first, and what a function returns.
abbrev pub M : Type 0 → Type 0
M A = List Call → A × List Call

module _ (system : System) where
  -- The body that both FormatCode have. LocalFree is taken to succeed: that it fails is only printed.
  unfoldable pub format_code : StringType → ℕ → ℕ → ℕ → M Text
  format_code type error_code flags module_to_search w =
      let message_buffer = system.format_message_buffer w type flags module_to_search error_code in
      let w = format_message type flags module_to_search error_code message_buffer ∷ w in
      if message_buffer == 0
      then (
        system.function_signature type
            ++ (codes ": FormatMessageA() failed on code "
                ++ (dword_text error_code
                    ++ (codes " with error " ++ dword_text (system.last_error w)))),
        get_last_error ∷ w,
      )
      else (
        erase_if is_line_break (until_null (system.memory w message_buffer)),
        local_free message_buffer ∷ w,
      )

  -- FORMAT_MESSAGE_ALLOCATE_BUFFER, FORMAT_MESSAGE_FROM_SYSTEM and FORMAT_MESSAGE_IGNORE_INSERTS, and with
  -- a module FORMAT_MESSAGE_FROM_HMODULE.
  unfoldable pub translate_error_code_in : StringType → ℕ → Text → M Text
  translate_error_code_in type error_code [] w =
      format_code type error_code (0x100 + 0x1000 + 0x200) 0 w
  translate_error_code_in type error_code (c ∷ name) w =
      let module_handle = system.load_library_w w (c ∷ name) in
      let w = load_library (c ∷ name) module_handle ∷ w in
      if module_handle == 0
      then format_code type error_code (0x100 + 0x1000 + 0x200) 0 w
      else (let (error_string, w) =
            format_code type error_code (0x100 + 0x1000 + 0x200 + 0x800) module_handle w in
          (error_string, free_library module_handle ∷ w))

  unfoldable pub translate_error_code : StringType → ℕ → M Text
  translate_error_code type error_code = translate_error_code_in type error_code []
