-- ===== src/Hub/Sources.antt =====
-- internal/hub/hub.go: the users whose snapshots may stand for an account, and which of them the
-- history follows.
pub mod Fresh
pub mod Sticky
use unibe_clan.Base.{
  ℕ, ◌+◌, Bool, true, false, not, ◌&&◌, ◌||◌, Option, none, some, List, [], ◌∷◌, ◌++◌, keep, map,
  if◌then◌else◌, ltb, leb, ◌==◌ as nat_beq,
}
use unibe_clan.Base.Keys.{Text, text_beq, text_eq, text_lt}
use unibe_clan.Base.Int.{ℤ}
use unibe_clan.Base.Map.{lookup}
use unibe_clan.Base.Sort.{sort_by}
use unibe_clan.Base.Time.{Time}
use unibe_clan.Model.{State, signed_out, api_key, Snapshot, Hashing, account_key}
use unibe_clan.Hub.Conflict.{bool_beq}
use unibe_clan.Hub.Entry.{
  Entry, is_consumer, is_ok, entry_stale, snapshot_account_key, last_account_key,
}

pub record HistorySignature : Type 0 where
  pub observed_at : Time
  pub used_percent : ℤ
  pub resets_at : ℤ
  pub has_window : Bool

pub record HistorySourceIdentity : Type 0 where
  pub username : Text
  pub account_version : ℕ

pub record HistorySourceState : Type 0 where
  pub source : HistorySourceIdentity
  pub signature : HistorySignature

pub record SourceCandidate : Type 0 where
  pub username : Text
  pub entry : Entry
  pub snapshot : Snapshot
  pub anchor : Bool
  pub stale : Bool
  pub fresh : Bool

-- The order in which the display prefers the candidates.
unfoldable pub preferred : SourceCandidate → SourceCandidate → Bool
preferred a b =
    if not (bool_beq a.anchor b.anchor)
    then a.anchor
    else if not (bool_beq a.stale b.stale)
    then not a.stale
    else if not (nat_beq a.snapshot.observed_at b.snapshot.observed_at)
    then ltb b.snapshot.observed_at a.snapshot.observed_at
    else text_lt a.username b.username

-- The first loop of `selectHistoryCandidateLocked`.
unfoldable pub fresh_anchor : List SourceCandidate → Option SourceCandidate
fresh_anchor [] = none
fresh_anchor (c ∷ cs) = let rest = fresh_anchor cs in if c.fresh && c.anchor then some c else rest

-- The second: the source that the history followed.
unfoldable pub same_source : HistorySourceIdentity → List SourceCandidate → Option SourceCandidate
same_source source [] = none
same_source source (c ∷ cs) =
    let rest = same_source source cs in
    if c.fresh
      && text_beq c.username source.username
      && nat_beq c.entry.account_version source.account_version
    then some c
    else rest

-- The third: a fresh candidate against the best one so far.
unfoldable pub better_choice : SourceCandidate → Option SourceCandidate → Option SourceCandidate
better_choice c none = some c
better_choice c (some best) =
    if c.anchor && not best.anchor
      || bool_beq c.anchor best.anchor && text_lt c.username best.username
    then some c
    else some best

unfoldable pub first_by_name :
    List SourceCandidate → Option SourceCandidate → Option SourceCandidate
first_by_name [] selected = selected
first_by_name (c ∷ cs) selected =
    first_by_name cs (if not c.fresh then selected else better_choice c selected)

-- Whether the last good observation of an entry is not older than the grace period.
unfoldable pub in_grace : Entry → Time → ℕ → Bool
in_grace e now stale_after = elim (e.last_good_at) [
  | none ↦ false
  | some good_at ↦ ltb now good_at || leb now (good_at + stale_after)
]

module _ (hashing : Hashing) where
  -- Whether an entry counts for an account.
  unfoldable pub belongs_to : Text → Entry → Bool
  belongs_to key e =
      if is_consumer e.identity
      then text_beq e.membership key
      else text_beq (account_key hashing e.identity.expected_email) key

  -- What the loop of `accountStatusLocked` makes of one entry that belongs to the account.
  unfoldable pub candidate_of : Text → Time → ℕ → Text → Entry → Option SourceCandidate
  candidate_of key now stale_after username e = elim (e.last_good) [
    | none ↦ none
    | some good ↦
        let stale = entry_stale e now stale_after in
        let fresh = is_ok e.current.state && not stale in
        if is_consumer e.identity
        then some (record {
          username = username;
          entry = e;
          snapshot = good;
          anchor = false;
          stale = stale;
          fresh = fresh;
        })
        else if text_beq (snapshot_account_key hashing e.current) key && fresh
        then some (record {
          username = username;
          entry = e;
          snapshot = good;
          anchor = true;
          stale = false;
          fresh = true;
        })
        else none
  ]

  -- The loop over `order`, for the candidates.
  unfoldable pub candidates_of :
      Text → Time → ℕ → List (Text × Entry) → List Text → List SourceCandidate
  candidates_of key now stale_after entries [] = []
  candidates_of key now stale_after entries (username ∷ order) =
      let rest = candidates_of key now stale_after entries order in
      elim (lookup username entries) [
        | none ↦ rest
        | some e ↦
            if not (belongs_to key e)
            then rest
            else elim (candidate_of key now stale_after username e) [
              | none ↦ rest
              | some c ↦ c ∷ rest
            ]
      ]

  -- `sort.SliceStable` of them.
  unfoldable pub sorted_candidates :
      Text → Time → ℕ → List (Text × Entry) → List Text → List SourceCandidate
  sorted_candidates key now stale_after entries order =
      sort_by preferred (candidates_of key now stale_after entries order)

  -- Whether the prior source still stands for the account.
  unfoldable pub still_followed : Text → HistorySourceIdentity → Entry → Bool
  still_followed key source e =
      nat_beq e.account_version source.account_version
      && text_beq (last_account_key hashing e.last_good) key

  -- The branch of `selectHistoryCandidateLocked` for a prior source: a candidate, a pause, or
  -- neither.
  unfoldable pub follow_prior :
      Text
      → HistorySourceIdentity
      → List (Text × Entry)
      → List SourceCandidate
      → Time
      → ℕ
      → Option (Option SourceCandidate)
  follow_prior key source entries candidates now stale_after =
      elim (lookup source.username entries) [
        | none ↦ none
        | some e ↦
            if not (still_followed key source e)
            then none
            else elim (same_source source candidates) [
              | some c ↦ some (some c)
              | none ↦ if in_grace e now stale_after then some none else none
            ]
      ]

  -- Without a fresh anchor.
  unfoldable pub select_consumer :
      Text
      → Option HistorySourceState
      → List (Text × Entry)
      → List SourceCandidate
      → Time
      → ℕ
      → Option SourceCandidate
  select_consumer key none entries candidates now stale_after = first_by_name candidates none
  select_consumer key (some prior) entries candidates now stale_after =
      elim (follow_prior key prior.source entries candidates now stale_after) [
        | some answer ↦ answer
        | none ↦ first_by_name candidates none
      ]

  -- `selectHistoryCandidateLocked`
  unfoldable pub select_history_candidate :
      Text
      → Option HistorySourceState
      → List (Text × Entry)
      → List SourceCandidate
      → Time
      → ℕ
      → Option SourceCandidate
  select_history_candidate key prior entries candidates now stale_after =
      elim (fresh_anchor candidates) [
        | some c ↦ some c
        | none ↦ select_consumer key prior entries candidates now stale_after
      ]
