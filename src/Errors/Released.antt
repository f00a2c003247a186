-- ===== src/Errors/Released.antt =====
-- What making an exception of the controller leaves behind in the system.
use basic_windows_drivers.Base.{ℕ, ◌≡◌, List, [], ◌∷◌, if◌then◌else◌, ◌==◌, ==_refl, arith}
use basic_windows_drivers.Strings.Text.{Text}
use basic_windows_drivers.Errors.Format.{codes, SourceLocation}
use basic_windows_drivers.Errors.Translate.{
  StringType, Call, load_library, free_library, format_message, local_free, System, format_code,
  translate_error_code_in, translate_error_code,
}
use basic_windows_drivers.Errors.Classes.{
  win32_error_code, win32_error_module, winsock_error_code, wfp_error_code,
}

-- A list without the first occurrence of a number.
abbrev without : ℕ → List ℕ → List ℕ
without a [] = []
without a (b ∷ l) = if a == b then l else b ∷ without a l

-- The modules that are loaded and the buffers that are allocated.
abbrev pub loaded : List Call → List ℕ
loaded [] = []
loaded (load_library name handle ∷ w) = if handle == 0 then loaded w else handle ∷ loaded w
loaded (free_library handle ∷ w) = without handle (loaded w)
loaded (_ ∷ w) = loaded w

abbrev pub allocated : List Call → List ℕ
allocated [] = []
allocated (format_message type flags module_to_search code buffer ∷ w) =
    if buffer == 0 then allocated w else buffer ∷ allocated w
allocated (local_free buffer ∷ w) = without buffer (allocated w)
allocated (_ ∷ w) = allocated w

abbrev pub IsReleased : List Call → List Call → Type 0
IsReleased w w' = (loaded w' ≡ loaded w) × (allocated w' ≡ allocated w)

module _ (system : System) where
  format_code-IsReleased :
      (type : StringType) (error_code flags handle : ℕ) (w : List Call)
      → IsReleased w (format_code system type error_code flags handle w).1
  unfolding format_code
  format_code-IsReleased type error_code flags handle w =
      let buffer = system.format_message_buffer w type flags handle error_code in
      ground (arith, ==_refl buffer)

  translate_error_code_in-IsReleased :
      (type : StringType) (error_code : ℕ) (name : Text) (w : List Call)
      → IsReleased w (translate_error_code_in system type error_code name w).1
  unfolding translate_error_code_in
  translate_error_code_in-IsReleased type error_code [] w =
      format_code-IsReleased type error_code 0x1300 0 w
  translate_error_code_in-IsReleased type error_code (c ∷ name) w =
      let handle = system.load_library_w w (c ∷ name) in
      let w' = load_library (c ∷ name) handle ∷ w in
      ground (
        arith,
        ==_refl handle,
        format_code-IsReleased type error_code 0x1300 0 w',
        format_code-IsReleased type error_code 0x1b00 handle w',
      )

  -- Whatever the system answers to LoadLibraryW and FormatMessage, and where LocalFree and FreeLibrary give
  -- back what they are given, making an exception with an error code, of any of the three classes, with or
  -- without a module's name, leaves loaded exactly the modules that were loaded before, and allocated
  -- exactly the buffers that were.
  pub errors-IsReleased :
      (location : SourceLocation) (message module_name : Text) (error_code : ℕ) (w : List Call)
      → IsReleased w (win32_error_code system location message error_code w).1
        × IsReleased w (win32_error_module system location message error_code module_name w).1
        × IsReleased w (winsock_error_code system location message error_code w).1
        × IsReleased w (wfp_error_code system location message error_code w).1
  unfolding win32_error_code win32_error_module winsock_error_code wfp_error_code
      translate_error_code
  errors-IsReleased location message module_name error_code w = (
    translate_error_code_in-IsReleased StringType.narrow error_code [] w,
    translate_error_code_in-IsReleased StringType.narrow error_code module_name w,
    translate_error_code_in-IsReleased StringType.narrow error_code (codes "Ws2_32.dll") w,
    translate_error_code_in-IsReleased StringType.narrow error_code (codes "Fwpuclnt.dll") w,
  )
