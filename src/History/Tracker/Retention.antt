-- ===== src/History/Tracker/Retention.antt =====
-- What retention keeps of each account, told by the times themselves.
use mathlib.Core.List.{Memᴰ}
use mathlib.Core.List.Memᴰ
use unibe_clan.Base.{◌≡◌, ◌↔◌, false, none, some, List, ltb, if◌then◌else◌}
use unibe_clan.Base.Keys.{Text, text_eq}
use unibe_clan.Base.Map.{lookup}
use unibe_clan.Base.Int.{ltb_ℤ}
use unibe_clan.Base.Time.{Time, unix}
use unibe_clan.History.Windows.{ResetWindow, reset_timestamp_settled}
use unibe_clan.History.Adjustments.{StoredAdjustment}
use unibe_clan.History.Events.{DiskAccount, ResetEvent, append_event, event_of}
use unibe_clan.History.Tracker.{Tracker, Candidate, account_of, adjustments_of, cutoff_of}

-- The completed windows of an account once its active window has settled.
abbrev pub completed : Time → DiskAccount → List ResetEvent
completed now a = elim (a.active) [
  | none ↦ a.events
  | some w ↦
      if reset_timestamp_settled w.resets_at (unix now)
      then append_event a.events (event_of now w)
      else a.events
]

-- What the tracker `after` has of an account is what `t` has of it that is recent at a time.
pub record Retained (now : Time) (t after : Tracker) (key : Text) : Type 0 where
  pub active :
      (w : ResetWindow)
      → ((account_of key after.accounts).active ≡ some w) ↔ (
          ((account_of key t.accounts).active ≡ some w)
          × (reset_timestamp_settled w.resets_at (unix now) ≡ false))
  pub events :
      (e : ResetEvent)
      → Memᴰ e (account_of key after.accounts).events ↔ (
          Memᴰ e (completed now (account_of key t.accounts))
          × (ltb_ℤ e.resets_at (unix (cutoff_of now t)) ≡ false))
  pub adjustments :
      (s : StoredAdjustment)
      → Memᴰ s (adjustments_of key after.adjustments) ↔ (
          Memᴰ s (adjustments_of key t.adjustments)
          × (ltb s.adjustment.detected_at (cutoff_of now t) ≡ false))
  pub candidates :
      (c : Candidate)
      → (lookup key after.candidates ≡ some c) ↔ (
          (lookup key t.candidates ≡ some c)
          × (reset_timestamp_settled c.window.resets_at (unix now) ≡ false)
          × (ltb c.last_seen_at (cutoff_of now t) ≡ false))
