-- ===== src/History/Tracker/Commit.antt =====
-- What a commit leaves, whatever the outcome of the file writes.
use unibe_clan.Base.{
  ◌+◌, ◌<◌, ◌≤◌, ◌≡◌, ◌∙◌, inl, inr, Bool, false, not, ◌&&◌, ◌||◌, arith, Bool-cases, if◌then◌else◌,
}
use unibe_clan.History.Tracker.{
  Tracker, Writes, persist_history, persist_adjustments, persist_core, persist_dirty, mark_changes,
  commit_changes, flush,
}
use unibe_clan.History.Tracker.Valid.{IsValid}
use unibe_clan.History.Tracker.Persist.{disk_states_valid}

-- The revision can be counted up.
abbrev pub HasRoom : Tracker → Type 0
HasRoom t = t.revision + 1 < 18_446_744_073_709_551_616

mark_changes-IsValid :
    (h a : Bool) (t : Tracker) → HasRoom t → IsValid t → IsValid (mark_changes h a t)
unfolding mark_changes
mark_changes-IsValid h a t room v = elim (Bool-cases (h || a)) [
  | inr same ↦ rw (same, mark_changes) v
  | inl changed ↦
      rw (changed, mark_changes)
        (record {
          parts = record {
            accounts = v.parts.accounts;
            adjustments = v.parts.adjustments;
            candidates = v.parts.candidates;
            unique = v.parts.unique;
          };
          order = record {
            keyed = v.order.keyed;
            sorted = v.order.sorted;
            counted = v.order.counted;
            bounded = v.order.bounded;
            listing = v.order.listing;
          };
          counting = omega (arith, room, v.counting);
          since = v.since;
          adjustments_since = v.adjustments_since;
        })
]

-- The two files as `persistDirtyLocked` leaves them: whether the adjustments do not hold it up, and
-- whether the history is written.
abbrev pub adjustments_pass : Writes → Tracker → Bool
adjustments_pass io t = not t.adjustments_dirty || io.adjustments_written

abbrev pub history_passes : Writes → Tracker → Bool
history_passes io t = adjustments_pass io t && (not t.dirty || io.history_written)

flush_outcome :
    (io : Writes) (t : Tracker)
    → IsValid t
    → t.in_memory ≡ false
    → ((flush io t).dirty ≡ (t.dirty && not (history_passes io t)))
      × ((flush io t).adjustments_dirty ≡ (t.adjustments_dirty && not io.adjustments_written))
      × ((flush io t).core_revision
          ≡ (if t.dirty && history_passes io t then t.revision else t.core_revision))
      × ((flush io t).revision ≡ t.revision)
      × ((flush io t).degraded
          ≡ (if t.dirty || t.adjustments_dirty then not (history_passes io t) else t.degraded))
unfolding flush persist_dirty persist_core persist_history persist_adjustments
flush_outcome io t v on_disk =
    let (h, a) = disk_states_valid t v in
    elim (Bool-cases (t.adjustments_dirty)) [
      | inl adjusted ↦ ground (arith, h, a)
      | inr still ↦ ground (arith, h, a)
    ]

flush_kept :
    (io : Writes) (t : Tracker)
    → ((flush io t).accounts ≡ t.accounts)
      × ((flush io t).adjustments ≡ t.adjustments)
      × ((flush io t).candidates ≡ t.candidates)
      × ((flush io t).order ≡ t.order)
      × ((flush io t).revision ≡ t.revision)
      × ((flush io t).tracking_since ≡ t.tracking_since)
      × ((flush io t).adjustments_tracking_since ≡ t.adjustments_tracking_since)
unfolding flush persist_dirty persist_core persist_history persist_adjustments
flush_kept io t = elim (Bool-cases (t.adjustments_dirty)) [
  | inl adjusted ↦ ground (arith)
  | inr still ↦ ground (arith)
]

flush-IsValid : (io : Writes) (t : Tracker) → IsValid t → IsValid (flush io t)
flush-IsValid io t v =
    let (accounts, adjustments, candidates, order, revision, since, adjustments_since) =
      flush_kept io t in
    record {
      parts = record {
        accounts = rw accounts v.parts.accounts;
        adjustments = rw adjustments v.parts.adjustments;
        candidates = rw candidates v.parts.candidates;
        unique = rw accounts v.parts.unique;
      };
      order = record {
        keyed = rw order v.order.keyed;
        sorted = rw order v.order.sorted;
        counted = rw (order, accounts) v.order.counted;
        bounded = rw order v.order.bounded;
        listing = rw (order, accounts) v.order.listing;
      };
      counting = rw revision v.counting;
      since = rw since v.since;
      adjustments_since = rw adjustments_since v.adjustments_since;
    }

pub commit_changes-IsValid :
    (io : Writes) (h a : Bool) (t : Tracker)
    → HasRoom t
    → IsValid t
    → IsValid (commit_changes io h a t)
unfolding commit_changes
commit_changes-IsValid io h a t room v =
    flush-IsValid io (mark_changes h a t) (mark_changes-IsValid h a t room v)

-- Marking the changes counts the revision up by one at most.
mark_changes-revision-le :
    (h a : Bool) (t : Tracker) → (mark_changes h a t).revision ≤ t.revision + 1
unfolding mark_changes
mark_changes-revision-le h a t = ground arith

pub commit_changes-revision-le :
    (io : Writes) (h a : Bool) (t : Tracker) → (commit_changes io h a t).revision ≤ t.revision + 1
unfolding commit_changes
commit_changes-revision-le io h a t =
    let (_, _, _, _, revision, _, _) = flush_kept io (mark_changes h a t) in
    ground (arith, revision, mark_changes-revision-le h a t)

mark_changes-in_memory : (h a : Bool) (t : Tracker) → (mark_changes h a t).in_memory ≡ t.in_memory
unfolding mark_changes
mark_changes-in_memory h a t = ground arith

-- Committing on disk, from a valid tracker whose revision can be counted up, whatever the outcome of
-- the two file writes: the history stays dirty exactly if it was to be written and its write, or
-- before it that of the adjustments, failed; the adjustments stay dirty exactly if their write
-- failed; the core revision becomes the revision exactly when the history is written, and stays as it
-- was otherwise; the revision is the one that marking the changes gave; and, if anything was to be
-- written, the tracker is degraded exactly when a write failed.
pub commit_changes_outcome :
    (io : Writes) (h a : Bool) (t : Tracker)
    → HasRoom t
    → IsValid t
    → t.in_memory ≡ false
    → ((commit_changes io h a t).dirty
        ≡ ((mark_changes h a t).dirty && not (history_passes io (mark_changes h a t))))
      × ((commit_changes io h a t).adjustments_dirty
          ≡ ((mark_changes h a t).adjustments_dirty && not io.adjustments_written))
      × ((commit_changes io h a t).core_revision ≡ (
          if (mark_changes h a t).dirty && history_passes io (mark_changes h a t)
          then (mark_changes h a t).revision
          else (mark_changes h a t).core_revision))
      × ((commit_changes io h a t).revision ≡ (mark_changes h a t).revision)
      × ((commit_changes io h a t).degraded ≡ (
          if (mark_changes h a t).dirty || (mark_changes h a t).adjustments_dirty
          then not (history_passes io (mark_changes h a t))
          else (mark_changes h a t).degraded))
unfolding commit_changes
commit_changes_outcome io h a t room v on_disk =
    flush_outcome io (mark_changes h a t) (mark_changes-IsValid h a t room v)
      (mark_changes-in_memory h a t ∙ on_disk)
