-- ===== src/Engine/Sequence.antt =====
-- Actions in order, as the methods of src/WFPController/WindowsFilteringPlatform run them.
use basic_windows_drivers.Engine.State.{World}
use basic_windows_drivers.Engine.Operations.{Outcome, returned, thrown, Action, and_then}

-- What both actions keep, the two in order keep, whether or not the first throws.
pub and_then-keeps :
    (P : World → Type 0) (r : World × Outcome) (next : Action)
    → P (r.0)
    → ((w : World) → P w → P (next w).0)
    → P (and_then r next).0
unfolding and_then
and_then-keeps P (w, returned) next p keeps = keeps w p
and_then-keeps P (w, thrown e) next p keeps = p
