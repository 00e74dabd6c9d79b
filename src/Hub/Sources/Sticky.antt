-- ===== src/Hub/Sources/Sticky.antt =====
-- The history does not change its source while the prior one may come back.
use unibe_clan.Base.{ℕ, ◌≡◌, true, none, some, List, [], ◌∷◌, arith}
use unibe_clan.Base.Keys.{Text, text_beq_iff, text_eq}
use unibe_clan.Base.Map.{lookup}
use unibe_clan.Base.Time.{Time}
use unibe_clan.Model.{Hashing}
use unibe_clan.Hub.Entry.{Entry}
use unibe_clan.Hub.Sources.{
  HistorySourceIdentity, HistorySourceState, SourceCandidate, fresh_anchor, same_source, in_grace,
  still_followed, follow_prior, select_consumer, select_history_candidate,
}

same_source-identity :
    (source : HistorySourceIdentity) (cs : List SourceCandidate) (c : SourceCandidate)
    → same_source source cs ≡ some c
    → (c.username ≡ source.username) × (c.entry.account_version ≡ source.account_version)
unfolding same_source
same_source-identity source [] c found = ground (arith, found)
same_source-identity source (b ∷ cs) c found =
    ground (arith, found, same_source-identity source cs c, text_beq_iff b.username source.username)

-- Without a fresh anchor, and while the source that the history followed is still of the account
-- and its last good observation not older than the grace period, the history follows that source or
-- none: never another user of the account.
pub select_sticky :
    (hashing : Hashing) (key : Text) (prior : HistorySourceState) (e : Entry)
    (entries : List (Text × Entry)) (cs : List SourceCandidate) (now : Time) (stale_after : ℕ)
    (c : SourceCandidate)
    → fresh_anchor cs ≡ none
    → lookup prior.source.username entries ≡ some e
    → still_followed hashing key prior.source e ≡ true
    → in_grace e now stale_after ≡ true
    → select_history_candidate hashing key (some prior) entries cs now stale_after ≡ some c
    → (c.username ≡ prior.source.username)
      × (c.entry.account_version ≡ prior.source.account_version)
unfolding select_history_candidate select_consumer follow_prior
select_sticky hashing key prior e entries cs now stale_after c no_anchor known followed grace
      chosen =
    same_source-identity prior.source cs c
      (ground (arith, no_anchor, known, followed, grace, chosen))
