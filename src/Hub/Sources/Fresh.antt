-- ===== src/Hub/Sources/Fresh.antt =====
-- What is known of a candidate, and that the history follows a fresh one only.
use unibe_clan.Base.{
  ℕ, ◌≡◌, refl, ◌∙◌, inl, inr, Bool, true, false, not, ◌&&◌, Option, none, some, List, [], ◌∷◌,
  arith, All, if◌then◌else◌, Bool-cases, Option-cases,
}
use unibe_clan.Base.Keys.{Text, text_beq, text_eq}
use unibe_clan.Base.Map.{lookup}
use unibe_clan.Base.Sort.{All-sort_by}
use unibe_clan.Base.Time.{Time}
use unibe_clan.Model.{Hashing}
use unibe_clan.Hub.Entry.{Entry, is_consumer, is_ok, entry_stale, snapshot_account_key}
use unibe_clan.Hub.Sources.{
  HistorySourceIdentity, HistorySourceState, SourceCandidate, preferred, fresh_anchor, same_source,
  better_choice, first_by_name, belongs_to, candidate_of, candidates_of, sorted_candidates,
  follow_prior, select_consumer, select_history_candidate,
}

-- A candidate is an entry of the account with its last good snapshot. An anchor's current snapshot
-- is of the account.
pub record IsSource (hashing : Hashing) (key : Text) (now : Time) (stale_after : ℕ)
    (entries : List (Text × Entry)) (c : SourceCandidate) : Type 0 where
  pub found : lookup c.username entries ≡ some c.entry
  pub belongs : belongs_to hashing key c.entry ≡ true
  pub good : c.entry.last_good ≡ some c.snapshot
  pub fresh : c.fresh ≡ (is_ok c.entry.current.state && not (entry_stale c.entry now stale_after))
  pub role : c.anchor ≡ not (is_consumer c.entry.identity)
  pub own :
      c.anchor ≡ true
      → (text_beq (snapshot_account_key hashing c.entry.current) key ≡ true) × (c.fresh ≡ true)

module _ (hashing : Hashing) (key : Text) (now : Time) (stale_after : ℕ) where
  candidate_of-IsSource :
      (username : Text) (e : Entry) (entries : List (Text × Entry)) (c : SourceCandidate)
      → lookup username entries ≡ some e
      → belongs_to hashing key e ≡ true
      → candidate_of hashing key now stale_after username e ≡ some c
      → IsSource hashing key now stale_after entries c
  unfolding candidate_of
  candidate_of-IsSource username e entries c found belongs made = record {
    found = ground (arith, found, made);
    belongs = ground (arith, belongs, made);
    good = ground (arith, made);
    fresh = ground (arith, made);
    role = ground (arith, made);
    own = λ anchors. (ground (arith, made, anchors), ground (arith, made, anchors));
  }

  pub candidates_of-IsSource :
      (entries : List (Text × Entry)) (order : List Text)
      → All
          (IsSource hashing key now stale_after entries)
          (candidates_of hashing key now stale_after entries order)
  unfolding candidates_of
  candidates_of-IsSource entries [] = tt
  candidates_of-IsSource entries (username ∷ order) =
      elim (Option-cases (lookup username entries)) [
        | inl missing ↦ rw (missing, candidates_of) (candidates_of-IsSource entries order)
        | inr (e, found) ↦ elim (Bool-cases (belongs_to hashing key e)) [
          | inr other ↦ rw (found, other, candidates_of) (candidates_of-IsSource entries order)
          | inl belongs ↦
              elim (Option-cases (candidate_of hashing key now stale_after username e)) [
                | inl refused ↦
                    rw (found, belongs, refused, candidates_of)
                      (candidates_of-IsSource entries order)
                | inr (c, made) ↦
                    rw (found, belongs, made, candidates_of)
                      (
                        candidate_of-IsSource username e entries c found belongs made,
                        candidates_of-IsSource entries order,
                      )
              ]
        ]
      ]

  pub sorted_candidates-IsSource :
      (entries : List (Text × Entry)) (order : List Text)
      → All
          (IsSource hashing key now stale_after entries)
          (sorted_candidates hashing key now stale_after entries order)
  unfolding sorted_candidates
  sorted_candidates-IsSource entries order =
      All-sort_by preferred _ _ (candidates_of-IsSource entries order)

-- What the candidates have in common holds of a choice among them, and the choice is fresh.
module _ {ℓ} (P : SourceCandidate → Type ℓ) where
  abbrev pub IsFreshChoice : Option SourceCandidate → Type ℓ
  IsFreshChoice choice = (c : SourceCandidate) → choice ≡ some c → P c × (c.fresh ≡ true)

  none-IsFreshChoice : IsFreshChoice none
  none-IsFreshChoice c absurd = ground (arith, absurd)

  some-IsFreshChoice : (b : SourceCandidate) → P b → b.fresh ≡ true → IsFreshChoice (some b)
  some-IsFreshChoice b p fresh c same = let e : b ≡ c = ground (arith, same) in rw (← e) (p, fresh)

  if-IsFreshChoice :
      (test : Bool) (b : SourceCandidate) (other : Option SourceCandidate)
      → P b
      → (test ≡ true → b.fresh ≡ true)
      → IsFreshChoice other
      → IsFreshChoice (if test then some b else other)
  if-IsFreshChoice true b other p fresh v = some-IsFreshChoice b p (fresh refl)
  if-IsFreshChoice false b other p fresh v = v

  fresh_anchor-IsFreshChoice :
      (cs : List SourceCandidate) → All P cs → IsFreshChoice (fresh_anchor cs)
  unfolding fresh_anchor
  fresh_anchor-IsFreshChoice [] a = none-IsFreshChoice
  fresh_anchor-IsFreshChoice (c ∷ cs) a =
      if-IsFreshChoice (c.fresh && c.anchor) c (fresh_anchor cs) a.0 (λ both. ground (arith, both))
        (fresh_anchor-IsFreshChoice cs a.1)

  same_source-IsFreshChoice :
      (source : HistorySourceIdentity) (cs : List SourceCandidate)
      → All P cs
      → IsFreshChoice (same_source source cs)
  unfolding same_source
  same_source-IsFreshChoice source [] a = none-IsFreshChoice
  same_source-IsFreshChoice source (c ∷ cs) a =
      if-IsFreshChoice _ c (same_source source cs) a.0 (λ both. ground (arith, both))
        (same_source-IsFreshChoice source cs a.1)

  better_choice-IsFreshChoice :
      (fresh : Bool) (c : SourceCandidate) (selected : Option SourceCandidate)
      → P c
      → c.fresh ≡ fresh
      → IsFreshChoice selected
      → IsFreshChoice (if not fresh then selected else better_choice c selected)
  unfolding better_choice
  better_choice-IsFreshChoice false c selected p f v = v
  better_choice-IsFreshChoice true c none p f v = some-IsFreshChoice c p f
  better_choice-IsFreshChoice true c (some best) p f v =
      if-IsFreshChoice _ c (some best) p (λ _. f) v

  first_by_name-IsFreshChoice :
      (cs : List SourceCandidate) (selected : Option SourceCandidate)
      → All P cs
      → IsFreshChoice selected
      → IsFreshChoice (first_by_name cs selected)
  unfolding first_by_name
  first_by_name-IsFreshChoice [] selected a v = v
  first_by_name-IsFreshChoice (c ∷ cs) selected a v =
      first_by_name-IsFreshChoice cs _ a.1
        (better_choice-IsFreshChoice c.fresh c selected a.0 refl v)

  -- A choice that may be absent, of which nothing is asked then.
  module _ (hashing : Hashing) (key : Text) (entries : List (Text × Entry)) (now : Time)
      (stale_after : ℕ) where
    follow_prior-IsFreshChoice :
        (source : HistorySourceIdentity) (cs : List SourceCandidate)
        (answer : Option SourceCandidate)
        → All P cs
        → follow_prior hashing key source entries cs now stale_after ≡ some answer
        → IsFreshChoice answer
    unfolding follow_prior
    follow_prior-IsFreshChoice source cs answer a followed c chosen =
        same_source-IsFreshChoice source cs a c (ground (arith, followed, chosen))

    select_consumer-IsFreshChoice :
        (prior : Option HistorySourceState) (cs : List SourceCandidate)
        → All P cs
        → IsFreshChoice (select_consumer hashing key prior entries cs now stale_after)
    unfolding select_consumer
    select_consumer-IsFreshChoice none cs a =
        first_by_name-IsFreshChoice cs none a none-IsFreshChoice
    select_consumer-IsFreshChoice (some prior) cs a =
        elim (Option-cases (follow_prior hashing key prior.source entries cs now stale_after)) [
          | inl free ↦
              rw (free, select_consumer) (first_by_name-IsFreshChoice cs none a none-IsFreshChoice)
          | inr (answer, followed) ↦
              rw (followed, select_consumer)
                (follow_prior-IsFreshChoice prior.source cs answer a followed)
        ]

    -- What `selectHistoryCandidateLocked` chooses is one of the candidates, and fresh.
    pub select-IsFreshChoice :
        (prior : Option HistorySourceState) (cs : List SourceCandidate)
        → All P cs
        → IsFreshChoice (select_history_candidate hashing key prior entries cs now stale_after)
    unfolding select_history_candidate
    select-IsFreshChoice prior cs a = elim (Option-cases (fresh_anchor cs)) [
      | inl no_anchor ↦
          rw (no_anchor, select_history_candidate) (select_consumer-IsFreshChoice prior cs a)
      | inr (c, anchored) ↦
          rw (anchored, select_history_candidate)
            (λ d same. fresh_anchor-IsFreshChoice cs a d (anchored ∙ same))
    ]
