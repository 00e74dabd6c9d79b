-- ===== src/Hub/Observed.antt =====
-- internal/hub/hub.go: what the history is told of the canonical observations.
use unibe_clan.Base.{
  Bool, true, false, not, ◌&&◌, Option, none, some, List, [], ◌∷◌, if◌then◌else◌, ◌==◌ as nat_beq,
}
use unibe_clan.Base.Keys.{Text, nat_eq, text_beq, text_eq}
use unibe_clan.Base.Int.{pos, eqb_ℤ}
use unibe_clan.Base.Map.{lookup, insert}
use unibe_clan.Model.{Snapshot}
use unibe_clan.Hub.Conflict.{bool_beq}
use unibe_clan.Hub.Sources.{HistorySignature, HistorySourceIdentity, HistorySourceState}
use unibe_clan.Hub.Account.{CanonicalObservation}
use unibe_clan.Hub.Table.{HistoryUpdate}

unfoldable pub signature_for_history : Snapshot → HistorySignature
signature_for_history s = elim (s.main_usage) [
  | none ↦ record {
    observed_at = s.observed_at;
    used_percent = pos 0;
    resets_at = pos 0;
    has_window = false;
  }
  | some w ↦ elim (w.resets_at) [
    | none ↦ record {
      observed_at = s.observed_at;
      used_percent = pos 0;
      resets_at = pos 0;
      has_window = false;
    }
    | some resets_at ↦ record {
      observed_at = s.observed_at;
      used_percent = w.used_percent;
      resets_at = resets_at;
      has_window = true;
    }
  ]
]

unfoldable pub same_source_identity : HistorySourceIdentity → HistorySourceIdentity → Bool
same_source_identity a b =
    text_beq a.username b.username && nat_beq a.account_version b.account_version

unfoldable pub same_signature : HistorySignature → HistorySignature → Bool
same_signature a b =
    nat_beq a.observed_at b.observed_at
    && eqb_ℤ a.used_percent b.used_percent
    && eqb_ℤ a.resets_at b.resets_at
    && bool_beq a.has_window b.has_window

-- What the history knows of a canonical observation: `none` where nothing is to be done.
unfoldable pub update_of : Option HistorySourceState → CanonicalObservation → Option HistoryUpdate
update_of none c = some (record { snapshot = c.snapshot; rebaseline = true })
update_of (some prior) c =
    if same_source_identity prior.source c.source
      && same_signature prior.signature (signature_for_history c.snapshot)
    then none
    else some (record {
      snapshot = c.snapshot;
      rebaseline = not (same_source_identity prior.source c.source);
    })

-- The loop of `newHistoryUpdatesLocked`: the updates, and what the history has observed then.
unfoldable pub collect_updates :
    List (Text × CanonicalObservation)
    → List (Text × HistorySourceState)
    → List HistoryUpdate × List (Text × HistorySourceState)
collect_updates [] observed = ([], observed)
collect_updates ((key, c) ∷ cs) observed = elim (update_of (lookup key observed) c) [
  | none ↦ collect_updates cs observed
  | some update ↦
      let (updates, observed') = collect_updates cs (
        insert key (record { source = c.source; signature = signature_for_history c.snapshot })
          observed) in
      (update ∷ updates, observed')
]
