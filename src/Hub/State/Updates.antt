-- ===== src/Hub/State/Updates.antt =====
-- What the history is told of the canonical observations.
use unibe_clan.Base.{
  ◌≡◌, refl, subst, inl, inr, true, none, some, List, [], ◌∷◌, arith, All, Bool-cases, Option-cases,
}
use unibe_clan.Base.Keys.{Text, text_beq_iff, text_eq}
use unibe_clan.Base.Int.{eqb_ℤ_iff}
use unibe_clan.Base.Map.{lookup, insert, lookup-insert, Unique}
use unibe_clan.Hub.Conflict.{bool_beq}
use unibe_clan.Hub.Sources.{HistorySignature, HistorySourceIdentity, HistorySourceState}
use unibe_clan.Hub.Account.{CanonicalObservation}
use unibe_clan.Hub.Table.{HistoryUpdate}
use unibe_clan.Hub.Observed.{
  signature_for_history, same_source_identity, same_signature, update_of, collect_updates,
}

same_signature_refl : (a : HistorySignature) → same_signature a a ≡ true
unfolding same_signature bool_beq
same_signature_refl a = ground (
  arith,
  eqb_ℤ_iff a.used_percent a.used_percent,
  eqb_ℤ_iff a.resets_at a.resets_at,
  Bool-cases a.has_window,
)

same_source_identity_refl : (a : HistorySourceIdentity) → same_source_identity a a ≡ true
unfolding same_source_identity
same_source_identity_refl a = ground (arith, text_beq_iff a.username a.username)

abbrev state_of : CanonicalObservation → HistorySourceState
state_of c = record { source = c.source; signature = signature_for_history c.snapshot }

-- An observation that the history has is no update.
update_of_same : (c : CanonicalObservation) → update_of (some (state_of c)) c ≡ none
unfolding update_of
update_of_same c = ground (
  arith,
  same_signature_refl (signature_for_history c.snapshot),
  same_source_identity_refl c.source,
)

-- The history knows each of the observations.
abbrev pub AreKnown : List (Text × HistorySourceState) → List (Text × CanonicalObservation) → Type 0
AreKnown observed cs = All (λ c. update_of (lookup c.0 observed) c.1 ≡ none) cs

collect_known :
    (cs : List (Text × CanonicalObservation)) (observed : List (Text × HistorySourceState))
    → AreKnown observed cs
    → collect_updates cs observed ≡ ([], observed)
unfolding collect_updates
collect_known [] observed known = refl
collect_known ((k, c) ∷ cs) observed known =
    ground (arith, known.0, collect_known cs observed known.1)

-- The observations of other accounts leave what is known of one.
lookup-collect_updates :
    (cs : List (Text × CanonicalObservation)) (observed : List (Text × HistorySourceState))
    (k : Text)
    → lookup k cs ≡ none
    → lookup k (collect_updates cs observed).1 ≡ lookup k observed
unfolding collect_updates lookup
lookup-collect_updates [] observed k absent = refl
lookup-collect_updates ((j, c) ∷ cs) observed k absent = ground (
  arith,
  lookup-collect_updates cs observed k,
  lookup-collect_updates cs (insert j (state_of c) observed) k,
  lookup-insert j k (state_of c) observed,
)

-- What is observed then, in the two cases of the loop.
observed_known :
    (k : Text) (c : CanonicalObservation) (cs : List (Text × CanonicalObservation))
    (observed : List (Text × HistorySourceState))
    → update_of (lookup k observed) c ≡ none
    → (collect_updates cs observed).1 ≡ (collect_updates ((k, c) ∷ cs) observed).1
unfolding collect_updates
observed_known k c cs observed known = ground (arith, known)

observed_new :
    (k : Text) (c : CanonicalObservation) (cs : List (Text × CanonicalObservation))
    (observed : List (Text × HistorySourceState)) (u : HistoryUpdate)
    → update_of (lookup k observed) c ≡ some u
    → (collect_updates cs (insert k (state_of c) observed)).1
      ≡ (collect_updates ((k, c) ∷ cs) observed).1
unfolding collect_updates
observed_new k c cs observed u unknown = ground (arith, unknown)

collect-AreKnown :
    (cs : List (Text × CanonicalObservation)) (observed : List (Text × HistorySourceState))
    → Unique cs
    → AreKnown (collect_updates cs observed).1 cs
collect-AreKnown [] observed u = tt
collect-AreKnown ((k, c) ∷ cs) observed u = elim (Option-cases (update_of (lookup k observed) c)) [
  | inl known ↦
      subst (λ o. AreKnown o ((k, c) ∷ cs)) (observed_known k c cs observed known)
        (
          ground (arith, lookup-collect_updates cs observed k u.0, known),
          collect-AreKnown cs observed u.1,
        )
  | inr (update, unknown) ↦
      subst (λ o. AreKnown o ((k, c) ∷ cs)) (observed_new k c cs observed update unknown)
        (
          ground (
            arith,
            lookup-collect_updates cs (insert k (state_of c) observed) k u.0,
            lookup-insert k k (state_of c) observed,
            text_beq_iff k k,
            update_of_same c,
          ),
          collect-AreKnown cs (insert k (state_of c) observed) u.1,
        )
]

-- The history is told of an observation once: told again of the same observations, one for each
-- account, it has no update, and what it has observed stays as it is.
pub collect_again :
    (cs : List (Text × CanonicalObservation)) (observed : List (Text × HistorySourceState))
    → Unique cs
    → collect_updates cs (collect_updates cs observed).1 ≡ ([], (collect_updates cs observed).1)
collect_again cs observed u = collect_known cs _ (collect-AreKnown cs observed u)
