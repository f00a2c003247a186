-- ===== src/Engine/SetUp.antt =====
-- What the command "all" of src/WFPController/main.cpp sets up, when the platform does what it is asked.
use basic_windows_drivers.Base.{ℕ, ◌≡◌, ◌≢◌, arith}
use basic_windows_drivers.Engine.Platform.{engine_open, Platform}
use basic_windows_drivers.Engine.State.{World, Slot}
use basic_windows_drivers.Engine.Operations.{returned}
use basic_windows_drivers.Engine.Installed.{present, key_of, IsObliging}
use basic_windows_drivers.Engine.Refinement.{
  AllAt, add_callouts-At, register_provider-At, add_sublayer-At, add_context-At, add_filters-At,
  close-At, open-At,
}
use basic_windows_drivers.Engine.Running.{set_up-keeps}
use basic_windows_drivers.Engine.Controller.{set_up}
use basic_windows_drivers.Engine.Steps.{IsWilling, open-Good, every_slot, set_up-Good}

set_up-AllAt :
    (platform : Platform) (process_id : ℕ) (w : World)
    → IsObliging platform
    → AllAt w
    → AllAt (set_up platform process_id w).0
set_up-AllAt platform process_id w obliging a =
    set_up-keeps platform process_id AllAt (open-At platform obliging)
      (register_provider-At platform obliging) (add_context-At platform obliging process_id)
      (add_sublayer-At platform obliging) (add_callouts-At platform obliging)
      (add_filters-At platform obliging) (close-At platform obliging) w a

-- If the platform refuses nothing, gives an identifier that is not 0 to each callout and a handle that is
-- not null to the session, and each member of the engine was in step with it before, then the calls of
-- "all" return, whatever was set up before, and afterwards the engine holds that session, and the platform
-- holds all four callouts in it.
pub set_up-present :
    (platform : Platform) (process_id : ℕ) (w : World) (s : Slot)
    → IsWilling platform
    → IsObliging platform
    → (platform w.trace engine_open).number ≢ 0
    → AllAt w
    → let (w', outcome) = set_up platform process_id w in
      let h = (platform w.trace engine_open).number in
      (outcome ≡ returned) × (w'.engine.engine_handle ≡ h) × (present (key_of s) w'.trace ≡ h)
set_up-present platform process_id w s willing obliging n a =
    let h = (platform w.trace engine_open).number in
    let (out, own, good) =
      set_up-Good platform h n willing process_id w obliging (open-Good platform w willing) in
    let (identified, here) = good s (every_slot platform h n willing s) in
    let at = set_up-AllAt platform process_id w obliging a s in (out, own, ground (arith, at.0))
