-- ===== src/History/Reconcile.antt =====
-- internal/history/history.go: the sidecar of adjustments is written before the history. When the
-- process stopped in between, loading takes the adjustments over that the history has not seen.
pub mod Chain
pub mod Redo
use unibe_clan.Base.{
  ℕ, ◌≡◌, refl, Bool, true, false, ◌&&◌, Option, none, some, List, [], ◌∷◌, arith, All,
  if◌then◌else◌, ◌==◌ as nat_beq,
}
use unibe_clan.Base.Int.{pos, eqb_ℤ}
use unibe_clan.History.Windows.{
  ResetWindow, WindowObservation, window_observation, valid_window, valid_observation,
}
use unibe_clan.History.Adjustments.{
  StoredAdjustment, reset_timestamp_changed, same_observation, has_reason, valid_adjustment,
  in_bounds,
}
use unibe_clan.History.Events.{valid_active}

-- The window that an observation describes.
abbrev pub observed_window : WindowObservation → ResetWindow
observed_window o = record {
  window_started_at = o.window_started_at;
  resets_at = o.resets_at;
  first_observed_at = o.first_observed_at;
  used_percent = o.used_percent;
}

-- What an adjustment that is taken over makes of the active window.
unfoldable pub adjusted_active : StoredAdjustment → Option ResetWindow
adjusted_active s =
    if has_reason reset_timestamp_changed s.adjustment.reasons
      && eqb_ℤ s.adjustment.after.used_percent (pos 0)
    then none
    else some (observed_window s.adjustment.after)

-- The inner loop of `reconcileSidecarLocked`: the active window, and what the next adjustment must
-- have started from.
unfoldable pub reconcile_active :
    ℕ → List StoredAdjustment → Option ResetWindow → WindowObservation → Option ResetWindow × Bool
reconcile_active core_revision [] active before = (active, false)
reconcile_active core_revision (s ∷ ss) active before =
    let skipped = reconcile_active core_revision ss active before in
    let (taken, _) = reconcile_active core_revision ss (adjusted_active s) s.adjustment.after in
    if nat_beq s.core_revision_before core_revision && same_observation s.adjustment.before before
    then (taken, true)
    else skipped

-- The body of the outer loop, on one account's active window. While a history is loaded there are no
-- candidates yet, so that the deletion of one has no effect.
unfoldable pub reconcile_account :
    ℕ → List StoredAdjustment → Option ResetWindow → Option ResetWindow × Bool
reconcile_account core_revision adjustments none = (none, false)
reconcile_account core_revision adjustments (some active) =
    reconcile_active core_revision adjustments (some active) (window_observation active)

pub reconcile_active_later :
    (core_revision : ℕ) (ss : List StoredAdjustment) (active : Option ResetWindow)
    (before : WindowObservation)
    → All (λ s. nat_beq s.core_revision_before core_revision ≡ false) ss
    → reconcile_active core_revision ss active before ≡ (active, false)
unfolding reconcile_active
reconcile_active_later core_revision [] active before h = refl
reconcile_active_later core_revision (s ∷ ss) active before h =
    ground (arith, h.0, reconcile_active_later core_revision ss active before h.1)

-- Where no adjustment was recorded at the history's revision, reconciling an account changes nothing
-- and reports no change.
pub reconcile_account_seen :
    (core_revision : ℕ) (ss : List StoredAdjustment) (active : Option ResetWindow)
    → All (λ s. nat_beq s.core_revision_before core_revision ≡ false) ss
    → reconcile_account core_revision ss active ≡ (active, false)
unfolding reconcile_account
reconcile_account_seen core_revision ss none h = refl
reconcile_account_seen core_revision ss (some w) h =
    reconcile_active_later core_revision ss (some w) (window_observation w) h
