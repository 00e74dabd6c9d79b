-- ===== src/Hub/State/Observing.antt =====
-- The hub and its history together: the updates that a call sends, and the tracker that it leaves.
use unibe_clan.Base.{
  ℕ, suc, ◌+◌, ◌<◌, ◌≤◌, ◌≢◌, subst, inl, inr, Bool, true, Option, none, some, List, [], ◌∷◌, arith,
  length, Option-cases,
}
use unibe_clan.Base.Keys.{Text, text_eq}
use unibe_clan.Base.Map.{lookup, insert, length-insert-le}
use unibe_clan.Base.Sort.{length-sort_by}
use unibe_clan.Base.Time.{Time}
use unibe_clan.Model.{Snapshot, Hashing}
use unibe_clan.History.Tracker.{Tracker}
use unibe_clan.History.Tracker.Valid.{IsValid}
use unibe_clan.History.Observe.Invariant.{apply_snapshot-IsValid, apply_snapshot-revision-le}
use unibe_clan.Hub.Entry.{ActivityRef, Entry}
use unibe_clan.Hub.Sources.{HistorySourceState}
use unibe_clan.Hub.Account.{CanonicalObservation, View}
use unibe_clan.Hub.Intake.{take_snapshot}
use unibe_clan.Hub.Table.{HistoryUpdate, Hub, view_of}
use unibe_clan.Hub.State.{
  World, update_before, broadcast, member_keys, anchor_keys, account_keys, canonicals,
  new_history_updates, apply_updates, update_history, accept, apply,
}
use unibe_clan.Hub.Observed.{update_of, signature_for_history, collect_updates}
use unibe_clan.Hub.State.Errors.{apply_cases}

length-collect_updates-le :
    (cs : List (Text × CanonicalObservation)) (observed : List (Text × HistorySourceState))
    → length (collect_updates cs observed).0 ≤ length cs
unfolding collect_updates
length-collect_updates-le [] observed = omega arith
length-collect_updates-le ((k, c) ∷ cs) observed =
    elim (Option-cases (update_of (lookup k observed) c)) [
      | inl known ↦ ground (arith, known, length-collect_updates-le cs observed)
      | inr (u, unknown) ↦ ground (
        arith,
        unknown,
        length-collect_updates-le cs (
            insert k (record { source = c.source; signature = signature_for_history c.snapshot })
              observed),
      )
    ]

length-anchor_keys-le :
    (anchors : List (Text × Text)) (keys : List (Text × Bool))
    → length (anchor_keys anchors keys) ≤ length anchors + length keys
unfolding anchor_keys
length-anchor_keys-le [] keys = omega arith
length-anchor_keys-le ((k, u) ∷ anchors) keys =
    ground (arith, length-anchor_keys-le anchors (insert k true keys), length-insert-le k true keys)

length-member_keys-le :
    (entries : List (Text × Entry)) (keys : List (Text × Bool))
    → length (member_keys entries keys) ≤ length entries + length keys
unfolding member_keys
length-member_keys-le [] keys = omega arith
length-member_keys-le ((u, e) ∷ entries) keys = ground (
  arith,
  length-member_keys-le entries keys,
  length-member_keys-le entries (insert e.membership true keys),
  length-insert-le e.membership true keys,
)

-- The history of a hub, where there is one, is valid.
abbrev pub HistoryIsValid : Option Tracker → Type 0
HistoryIsValid none = Unit
HistoryIsValid (some t) = IsValid t

-- The history's revision can be counted up so many times.
abbrev pub RevisionLeaves : ℕ → Option Tracker → Type 0
RevisionLeaves n none = Unit
RevisionLeaves n (some t) = t.revision + n < 18_446_744_073_709_551_616

RevisionLeaves-le :
    (m n : ℕ) (history : Option Tracker)
    → m ≤ n
    → RevisionLeaves n history
    → RevisionLeaves m history
RevisionLeaves-le m n none le room = tt
RevisionLeaves-le m n (some t) le room = omega (arith, le, room)

module _ (hashing : Hashing) where
  length-canonicals-le :
      (now : Time) (activities : List ActivityRef) (h : View) (keys : List (Text × Bool))
      → length (canonicals hashing now activities h keys) ≤ length keys
  unfolding canonicals
  length-canonicals-le now activities h [] = omega arith
  length-canonicals-le now activities h ((k, b) ∷ keys) =
      ground (arith, length-canonicals-le now activities h keys)

  -- There is an update for each account at most, and an account for each user and anchor at most.
  length-new_history_updates-le :
      (now : Time) (activities : List ActivityRef) (h : Hub)
      → length (new_history_updates hashing now activities h).0
        ≤ length h.entries + length h.expected_anchors
  unfolding new_history_updates account_keys
  length-new_history_updates-le now activities h =
      let cs = canonicals hashing now activities (view_of h) (account_keys h) in
      omega (
        arith,
        length-sort_by (update_before hashing) (collect_updates cs h.history_observed).0,
        length-collect_updates-le cs h.history_observed,
        length-canonicals-le now activities (view_of h) (account_keys h),
        length-member_keys-le h.entries (anchor_keys h.expected_anchors []),
        length-anchor_keys-le h.expected_anchors [],
      )

  apply_updates-IsValid :
      (w : World) (n : ℕ) (us : List HistoryUpdate) (t : Tracker)
      → ((k : ℕ) → w.history_now k ≢ 0)
      → t.revision + length us < 18_446_744_073_709_551_616
      → IsValid t
      → IsValid (apply_updates hashing w n us t)
  unfolding apply_updates
  apply_updates-IsValid w n [] t clocks room v = v
  apply_updates-IsValid w n (u ∷ us) t clocks room v =
      apply_updates-IsValid w (suc n) us _ clocks
        (omega (
          arith,
          room,
          apply_snapshot-revision-le hashing (w.history_writes n) u.snapshot u.rebaseline
              (w.history_now n) t,
        ))
        (apply_snapshot-IsValid hashing (w.history_writes n) u.snapshot u.rebaseline
          (w.history_now n) t (clocks n) (omega (arith, room)) v)

  update_history-HistoryIsValid :
      (w : World) (h : Hub)
      → ((k : ℕ) → w.history_now k ≢ 0)
      → RevisionLeaves (length h.entries + length h.expected_anchors) h.history
      → HistoryIsValid h.history
      → HistoryIsValid (update_history hashing w h).history
  unfolding update_history
  update_history-HistoryIsValid w h clocks room v = elim (Option-cases h.history) [
    | inl silent ↦ rw (silent, update_history) v
    | inr (d, given) ↦
        let updates = (new_history_updates hashing w.now w.activities h).0 in
        let small : d.revision + (length h.entries + length h.expected_anchors)
            < 18_446_744_073_709_551_616 =
          subst (RevisionLeaves _) given room in
        rw (given, update_history)
          (apply_updates-IsValid w 0 updates d clocks
            (omega (arith, small, length-new_history_updates-le w.now w.activities h))
            (subst HistoryIsValid given v))
  ]

  accept-HistoryIsValid :
      (w : World) (username : Text) (e : Entry) (s : Snapshot) (h : Hub)
      → ((k : ℕ) → w.history_now k ≢ 0)
      → RevisionLeaves (length h.entries + length h.expected_anchors + 1) h.history
      → HistoryIsValid h.history
      → HistoryIsValid (accept hashing w username e s h).history
  unfolding accept broadcast
  accept-HistoryIsValid w username e s h clocks room v =
      update_history-HistoryIsValid w _ clocks
        (RevisionLeaves-le _ _ h.history
          (omega (
            arith,
            length-insert-le username (take_snapshot hashing w.boundary_activities w.now s e)
                h.entries,
          ))
          room)
        v

  -- Apply keeps the history of the hub valid, whatever the snapshot, the error that it answers and
  -- the outcome of the file writes, while the history's clock does not read the zero time and its
  -- revision can be counted up once for each user and each anchor, and once more.
  pub apply-HistoryIsValid :
      (w : World) (uid : ℕ) (s : Snapshot) (h : Hub)
      → ((k : ℕ) → w.history_now k ≢ 0)
      → RevisionLeaves (length h.entries + length h.expected_anchors + 1) h.history
      → HistoryIsValid h.history
      → HistoryIsValid (apply hashing w uid s h).0.history
  apply-HistoryIsValid w uid s h clocks room v = elim (apply_cases hashing w uid s h) [
    | inl same ↦ rw same v
    | inr a ↦ rw a.accepted (accept-HistoryIsValid w a.username a.entry s h clocks room v)
  ]
