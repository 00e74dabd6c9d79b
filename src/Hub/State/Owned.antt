-- ===== src/Hub/State/Owned.antt =====
-- The history of an account observes the usage of that account only.
use unibe_clan.Base.{
  ℕ, ◌≡◌, ◌≢◌, ◌⊎◌, refl, inl, inr, Bool, true, false, Option, none, some, List, [], arith, All,
  All-map, Bool-cases, Option-cases,
}
use unibe_clan.Base.Keys.{Text, text_beq_iff, text_eq}
use unibe_clan.Base.Map.{lookup, All-lookup}
use unibe_clan.Base.Time.{Time}
use unibe_clan.Model.{State, ok, Account, Snapshot, Hashing}
use unibe_clan.Hub.Entry.{
  ActivityRef, Entry, is_consumer, is_ok, snapshot_account_key, last_account_key,
}
use unibe_clan.Hub.Intake.Hidden.{EntryIsValid, LatestIsKept}
use unibe_clan.Hub.Sources.{SourceCandidate, belongs_to, sorted_candidates}
use unibe_clan.Hub.Sources.Fresh.{IsSource, sorted_candidates-IsSource, select-IsFreshChoice}
use unibe_clan.Hub.Account.{CanonicalObservation, canonical_of, account_status}
use unibe_clan.Hub.Table.{Hub, view_of}
use unibe_clan.Hub.State.Valid.{HubIsValid}

ok_of_is_ok : (state : State) → is_ok state ≡ true → state ≡ ok
unfolding is_ok
ok_of_is_ok state h = ground (arith, h)

-- What a canonical observation shows of the choice that it is of.
canonical_of-some :
    (conflict : Bool) (choice : Option SourceCandidate) (o : CanonicalObservation)
    → canonical_of conflict choice ≡ some o
    → (c : SourceCandidate) × (choice ≡ some c)
      × (c.snapshot ≡ o.snapshot)
      × (c.username ≡ o.source.username)
      × ((conflict ≡ false) ⊎ (c.anchor ≡ true))
unfolding canonical_of
canonical_of-some conflict none o made = ground (arith, made)
canonical_of-some conflict (some c) o made =
    (c, refl, ground (arith, made), ground (arith, made), ground (arith, made))

module _ (hashing : Hashing) (key : Text) (nonempty : key ≢ []) where
  -- A source of an account in a well-formed entry has a snapshot of that account.
  source_account :
      (now : Time) (stale_after : ℕ) (entries : List (Text × Entry)) (c : SourceCandidate)
      → IsSource hashing key now stale_after entries c
      → EntryIsValid hashing c.entry
      → LatestIsKept c.entry
      → snapshot_account_key hashing c.snapshot ≡ key
  unfolding belongs_to last_account_key
  source_account now stale_after entries c source v latest =
      elim (Bool-cases (is_consumer c.entry.identity)) [
        | inl consumes ↦ ground (
          arith,
          nonempty,
          consumes,
          source.belongs,
          source.good,
          v.account.member,
          text_beq_iff c.entry.membership key,
        )
        | inr anchors ↦ ground (
          arith,
          source.good,
          latest (
              ok_of_is_ok c.entry.current.state
                (ground (arith, source.fresh, source.own (ground (arith, source.role, anchors))))),
          source.own (ground (arith, source.role, anchors)),
          text_beq_iff (snapshot_account_key hashing c.entry.current) key,
        )
      ]

  named_account :
      (s : Snapshot)
      → snapshot_account_key hashing s ≢ []
      → (account : Account) × (s.account ≡ some account)
  unfolding snapshot_account_key
  named_account s named = elim (Option-cases s.account) [
    | inl absent ↦ ground (arith, absent, named)
    | inr present ↦ present
  ]

  choice_account :
      (now : Time) (h : Hub) (c : SourceCandidate) (o : CanonicalObservation)
      → IsSource hashing key now h.stale_after h.entries c
      → HubIsValid hashing h
      → c.snapshot ≡ o.snapshot
      → c.username ≡ o.source.username
      → (conflict : Bool) → (conflict ≡ false) ⊎ (c.anchor ≡ true)
      → (snapshot_account_key hashing o.snapshot ≡ key)
        × (o.snapshot.state ≡ ok)
        × (o.snapshot.runtime_threads ≡ [])
        × ((e : Entry) × (lookup o.source.username h.entries ≡ some e)
            × (e.last_good ≡ some o.snapshot)
            × ((conflict ≡ false) ⊎ (is_consumer e.identity ≡ false)))
  choice_account now h c o source v shown named conflict calm =
      let valid = All-lookup _ c.username c.entry h.entries v.entries source.found in
      let good = valid.1.account.good c.snapshot source.good in
      (
        ground (arith, shown, source_account now h.stale_after h.entries c source valid.1 valid.2),
        ground (arith, shown, good.state),
        ground (arith, shown, good.threads),
        (
          c.entry,
          ground (arith, named, source.found),
          ground (arith, shown, source.good),
          ground (arith, calm, source.role),
        ),
      )

  -- In a valid hub, what the history observes of an account (under a key that is not empty) is the
  -- last good snapshot of a user: the account of that snapshot is this account, it is in state ok,
  -- and no runtime thread stands in it; and where the fresh sources conflict, the user is an
  -- anchor.
  pub canonical-account :
      (now : Time) (activities : List ActivityRef) (h : Hub) (o : CanonicalObservation)
      → HubIsValid hashing h
      → (account_status hashing key now activities (view_of h)).1 ≡ some o
      → (snapshot_account_key hashing o.snapshot ≡ key)
        × (o.snapshot.state ≡ ok)
        × (o.snapshot.runtime_threads ≡ [])
        × ((e : Entry) × (lookup o.source.username h.entries ≡ some e)
            × (e.last_good ≡ some o.snapshot)
            × (((account_status hashing key now activities (view_of h)).0.source_conflict ≡ false)
                ⊎ (is_consumer e.identity ≡ false)))
  unfolding account_status
  canonical-account now activities h o v made =
      let sources = sorted_candidates-IsSource hashing key now h.stale_after h.entries h.order in
      let b = canonical_of-some _ _ o made in
      let choice =
        select-IsFreshChoice _ hashing key h.entries now h.stale_after
          (lookup key h.history_observed)
          (sorted_candidates hashing key now h.stale_after h.entries h.order) sources b.0 b.1 in
      choice_account now h b.0 o choice.0 v b.2 b.3 _ b.4

  -- In a valid hub, each source that the display of an account (under a key that is not empty) may
  -- choose has a last good snapshot of that account: there is an account to show in it.
  pub sources-account :
      (now : Time) (h : Hub)
      → HubIsValid hashing h
      → All
          (λ c.
            (snapshot_account_key hashing c.snapshot ≡ key)
            × ((account : Account) × (c.snapshot.account ≡ some account)))
          (sorted_candidates hashing key now h.stale_after h.entries h.order)
  sources-account now h v =
      All-map _ _
        (λ c source.
          let valid = All-lookup _ c.username c.entry h.entries v.entries source.found in
          let same = source_account now h.stale_after h.entries c source valid.1 valid.2 in
          (same, named_account c.snapshot (ground (arith, nonempty, same))))
        _ (sorted_candidates-IsSource hashing key now h.stale_after h.entries h.order)
