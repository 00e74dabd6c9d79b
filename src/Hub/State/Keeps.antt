-- ===== src/Hub/State/Keeps.antt =====
-- What a snapshot that is accepted changes of the users' entries.
use unibe_clan.Base.{
  ℕ, ◌<◌, ◌≡◌, ◌⊎◌, refl, inl, inr, false, some, arith, if◌then◌else◌, Bool-cases, Option-cases,
}
use unibe_clan.Base.Keys.{Text, nat_eq, text_beq, text_beq_iff, text_eq}
use unibe_clan.Base.Map.{lookup, insert, lookup-insert}
use unibe_clan.Model.{Snapshot, Hashing}
use unibe_clan.Hub.Entry.{Entry}
use unibe_clan.Hub.Intake.{strip, take_snapshot}
use unibe_clan.Hub.Intake.Kept.{take_snapshot-current}
use unibe_clan.Hub.Table.{Hub}
use unibe_clan.Hub.State.{
  World, new_history_updates, update_history, broadcast, accept, is_delayed, apply,
}
use unibe_clan.Hub.State.Errors.{Accepted, apply_cases}

module _ (hashing : Hashing) where
  update_history-entries : (w : World) (h : Hub) → (update_history hashing w h).entries ≡ h.entries
  unfolding update_history new_history_updates
  update_history-entries w h = elim (Option-cases (h.history)) [
    | inl silent ↦ rw (silent, update_history) refl
    | inr (t, given) ↦ rw (given, update_history) refl
  ]

  accept-entries :
      (w : World) (username : Text) (e : Entry) (s : Snapshot) (h : Hub)
      → (accept hashing w username e s h).entries
        ≡ insert username (take_snapshot hashing w.boundary_activities w.now s e) h.entries
  unfolding accept broadcast
  accept-entries w username e s h = update_history-entries w _

  -- A snapshot that is not delayed is newer than the one before it, if there was one.
  timely :
      (s : Snapshot) (e : Entry)
      → is_delayed s e ≡ false
      → (e.current.observed_at ≡ 0) ⊎ (e.current.observed_at < s.observed_at)
  unfolding is_delayed
  timely s e h = ground (arith, h)

  lookup-apply :
      (w : World) (uid : ℕ) (s : Snapshot) (h : Hub) (username : Text)
      (a : Accepted hashing w uid s h)
      → lookup username (apply hashing w uid s h).0.entries ≡ (
          if text_beq a.username username
          then some (take_snapshot hashing w.boundary_activities w.now s a.entry)
          else lookup username h.entries)
  lookup-apply w uid s h username a = ground (
    arith,
    a.accepted,
    accept-entries w a.username a.entry s h,
    lookup-insert a.username username (take_snapshot hashing w.boundary_activities w.now s a.entry)
        h.entries,
  )

  -- A call of Apply leaves a user's entry as it was; or the uid is the user's, the entry's current
  -- snapshot is the given one without its runtime threads, and that is newer than the one before
  -- it, if there was one.
  pub apply_monotone :
      (w : World) (uid : ℕ) (s : Snapshot) (h : Hub) (username : Text) (e : Entry)
      → lookup username h.entries ≡ some e
      → (d : Entry) × (lookup username (apply hashing w uid s h).0.entries ≡ some d)
        × ((d ≡ e)
            ⊎ ((lookup uid h.by_uid ≡ some username)
                × (d.current ≡ strip s)
                × ((e.current.observed_at ≡ 0) ⊎ (e.current.observed_at < s.observed_at))))
  apply_monotone w uid s h username e found = elim (apply_cases hashing w uid s h) [
    | inl same ↦ (e, rw same found, inl refl)
    | inr a ↦ elim (Bool-cases (text_beq a.username username)) [
      | inr other ↦ (e, ground (arith, other, found, lookup-apply w uid s h username a), inl refl)
      | inl own ↦ (
        take_snapshot hashing w.boundary_activities w.now s a.entry,
        ground (arith, own, lookup-apply w uid s h username a),
        inr (
          ground (arith, a.trusted, own, text_beq_iff a.username username),
          take_snapshot-current hashing w.boundary_activities w.now s a.entry,
          ground (
            arith,
            timely s a.entry a.timely,
            own,
            text_beq_iff a.username username,
            found,
            a.found,
          ),
        ),
      )
    ]
  ]
