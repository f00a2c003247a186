-- ===== src/Engine/Tracking/Adding.antt =====
-- The methods of the engine that add objects, and the sessions.
use basic_windows_drivers.Engine.Sequence.{and_then-keeps}
use basic_windows_drivers.Base.{ℕ, ◌≡◌, refl, inl, inr, true, false, List, ◌==◌, Bool-cases, arith}
use basic_windows_drivers.Engine.Platform.{Guid, Platform, Condition}
use basic_windows_drivers.Engine.State.{Engine, World}
use basic_windows_drivers.Engine.Handles.{is_held}
use basic_windows_drivers.Engine.Operations.{
  register_provider, add_context, add_sublayer, add_filter, add_filters,
}
use basic_windows_drivers.Engine.Sessions.{is_open, is_sound, Tracks}
use basic_windows_drivers.Engine.Tracking.{ask-Tracks, open_held}

module _ (platform : Platform) where
  -- A call of the platform on the engine's own session, tested for null.
  own_session :
      (w : World)
      → Tracks 0 w
      → (w.engine.engine_handle == 0) ≡ false
      → is_open w.engine.engine_handle w.trace ≡ true
  own_session w t e = open_held platform w.engine.engine_handle w t (ground arith) (ground arith)

  pub register_provider-Tracks :
      (w : World) → Tracks 0 w → Tracks 0 (register_provider platform w).0
  unfolding register_provider is_sound
  register_provider-Tracks w t = elim (Bool-cases (w.engine.engine_handle == 0)) [
    | inl e ↦ rw e t
    | inr e ↦ rw e (ask-Tracks platform _ _ w refl (own_session w t e) (λ n h. refl) t)
  ]

  pub add_sublayer-Tracks : (w : World) → Tracks 0 w → Tracks 0 (add_sublayer platform w).0
  unfolding add_sublayer is_sound
  add_sublayer-Tracks w t = elim (Bool-cases (w.engine.engine_handle == 0)) [
    | inl e ↦ rw e t
    | inr e ↦ rw e (ask-Tracks platform _ _ w refl (own_session w t e) (λ n h. refl) t)
  ]

  pub add_context-Tracks :
      (process_id : ℕ) (w : World) → Tracks 0 w → Tracks 0 (add_context platform process_id w).0
  unfolding add_context is_sound
  add_context-Tracks process_id w t =
      ask-Tracks platform _ _ w refl
        (elim (Bool-cases (w.engine.engine_handle == 0)) [
          | inl e ↦ rw e
          | inr e ↦ rw (e, own_session w t e)
        ])
        (λ n h. refl) t

  add_filter-Tracks :
      (layer sublayer callout : Guid) (conditions : List Condition) (keep : ℕ → Engine → Engine)
      (w : World)
      → ((n h : ℕ) (e : Engine) → is_held h (keep n e) ≡ is_held h e)
      → Tracks 0 w
      → Tracks 0 (add_filter platform layer sublayer callout conditions keep w).0
  unfolding add_filter is_sound
  add_filter-Tracks layer sublayer callout conditions keep w same t =
      elim (Bool-cases (w.engine.engine_handle == 0)) [
        | inl e ↦ rw e t
        | inr e ↦
            rw e (ask-Tracks platform _ _ w refl (own_session w t e) (λ n h. same n h w.engine) t)
      ]

  pub add_filters-Tracks : (w : World) → Tracks 0 w → Tracks 0 (add_filters platform w).0
  unfolding add_filters
  add_filters-Tracks w t = elim (Bool-cases (w.engine.engine_handle == 0)) [
    | inl e ↦ rw e t
    | inr e ↦ rw e (
        and_then-keeps (Tracks 0) _ _
          (and_then-keeps (Tracks 0) _ _
            (and_then-keeps (Tracks 0) _ _ (add_filter-Tracks _ _ _ _ _ w (λ n h e. refl) t)
              (λ w t. add_filter-Tracks _ _ _ _ _ w (λ n h e. refl) t))
            (λ w t. add_filter-Tracks _ _ _ _ _ w (λ n h e. refl) t))
          (λ w t. add_filter-Tracks _ _ _ _ _ w (λ n h e. refl) t))
  ]
