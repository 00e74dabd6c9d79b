-- ===== src/History/Reconcile/Redo.antt =====
-- A sidecar that was written without its history: loading does to the account what the observation
-- had done.
use unibe_clan.Base.{ℕ, [], ◌∷◌, if◌then◌else◌, ◌==◌ as nat_beq}
use unibe_clan.Base.Keys.{text_eq}
use unibe_clan.Base.Int.{ltb_ℤ}
use unibe_clan.Base.Time.{Time}
use unibe_clan.History.Windows.{ResetWindow, window_observation}
use unibe_clan.History.Adjustments.{
  StoredAdjustment, reset_timestamp_changed, used_percent_decreased,
}
use unibe_clan.History.Tracker.{Tracker}

-- The adjustment for a change of the window before its reset.
abbrev pub early_adjustment : Time → ResetWindow → ResetWindow → ℕ → StoredAdjustment
early_adjustment now active proposed core_revision = record {
  adjustment = record {
    detected_at = now;
    reasons =
        reset_timestamp_changed
        ∷ (if ltb_ℤ proposed.used_percent active.used_percent
            then used_percent_decreased ∷ []
            else []);
    before = window_observation active;
    after = window_observation proposed;
  };
  core_revision_before = core_revision;
}
