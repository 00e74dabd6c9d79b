-- ===== src/Hub/State/Reach.antt =====
-- The states that a hub goes through: the calls of its methods, one after the other.
use unibe_clan.Base.{
  ℕ, ◌≡◌, ap, ◌∙◌, inl, inr, Bool, Option, none, some, List, Bool-cases, Option-cases,
}
use unibe_clan.Base.Int.{ℤ}
use unibe_clan.Base.Keys.{Text, nat_eq, text_eq}
use unibe_clan.Base.Map.{lookup, insert, All-lookup}
use unibe_clan.Base.Result.{ok}
use unibe_clan.Model.{Snapshot, Hashing}
use unibe_clan.History.Tracker.{Tracker}
use unibe_clan.Hub.Entry.{Identity, Entry}
use unibe_clan.Hub.Intake.{take_snapshot}
use unibe_clan.Hub.Intake.Kept.{
  take_snapshot-EntryIsValid, take_snapshot-identity, take_snapshot-LatestIsKept,
}
use unibe_clan.Hub.Table.{Hub}
use unibe_clan.Hub.State.{
  World, new_history_updates, update_history, accept, apply, publish, set_history, refresh,
  set_demo, subscribe, cancel, broadcast,
}
use unibe_clan.Hub.Start.{new}
use unibe_clan.Hub.Conflict.{bool_beq}
use unibe_clan.Hub.State.Errors.{apply_cases}
use unibe_clan.Hub.State.Valid.{HubIsValid, new-HubIsValid, more_entries}

module _ (hashing : Hashing) where
  -- One call of a method; or a subscriber takes what its channel holds.
  pub data Step (h : Hub) : Hub → Type 0 where
    applied : (w : World) (uid : ℕ) (s : Snapshot) → Step h (apply hashing w uid s h).0
    history_set : (w : World) (t : Option Tracker) → Step h (set_history hashing w t h)
    refreshed : (w : World) → Step h (refresh hashing w h)
    demo_set : (w : World) (enabled : Bool) → Step h (set_demo hashing w enabled h)
    subscribed : (w : World) → Step h (subscribe hashing w h).0
    cancelled : (id : ℕ) → Step h (cancel id h)
    received : (id : ℕ) → Step h (record h { subs = insert id none h.subs })

  -- What `New` and such calls lead to.
  pub data Reachable : Hub → Type 0 where
    started :
        (identities : List Identity) (stale_after : ℤ) (h : Hub)
        → new hashing identities stale_after ≡ ok h
        → Reachable h
    stepped : (h g : Hub) → Reachable h → Step h g → Reachable g

  update_history-HubIsValid :
      (w : World) (h : Hub) → HubIsValid hashing h → HubIsValid hashing (update_history hashing w h)
  unfolding update_history new_history_updates
  update_history-HubIsValid w h v = elim (Option-cases (h.history)) [
    | inl silent ↦ rw (silent, update_history) v
    | inr (t, given) ↦
        rw (given, update_history)
          (record {
            entries = v.entries;
            trusted = v.trusted;
            listed = v.listed;
            anchored = v.anchored;
          })
  ]

  publish-HubIsValid :
      (w : World) (h : Hub) → HubIsValid hashing h → HubIsValid hashing (publish hashing w h)
  unfolding broadcast
  publish-HubIsValid w h v = record {
    entries = v.entries;
    trusted = v.trusted;
    listed = v.listed;
    anchored = v.anchored;
  }

  refresh-HubIsValid :
      (w : World) (h : Hub) → HubIsValid hashing h → HubIsValid hashing (refresh hashing w h)
  unfolding refresh
  refresh-HubIsValid w h v = publish-HubIsValid w _ (record {
    entries = v.entries;
    trusted = v.trusted;
    listed = v.listed;
    anchored = v.anchored;
  })

  accept-HubIsValid :
      (w : World) (username : Text) (e : Entry) (s : Snapshot) (h : Hub)
      → HubIsValid hashing h
      → lookup username h.entries ≡ some e
      → HubIsValid hashing (accept hashing w username e s h)
  unfolding accept
  accept-HubIsValid w username e s h v found =
      let known = All-lookup _ username e h.entries v.entries found in
      let taken = take_snapshot hashing w.boundary_activities w.now s e in
      update_history-HubIsValid w _ (
        publish-HubIsValid w _ (
          let u =
            more_entries hashing username taken h
              (
                ap (λ (i : Identity). i.username)
                      (take_snapshot-identity hashing w.boundary_activities w.now s e)
                    ∙ known.0,
                take_snapshot-EntryIsValid hashing w.boundary_activities w.now s e known.1,
                take_snapshot-LatestIsKept hashing w.boundary_activities w.now s e,
              )
              v in
          record {
            entries = u.entries;
            trusted = u.trusted;
            listed = u.listed;
            anchored = u.anchored;
          }))

  Step-HubIsValid : (h g : Hub) → HubIsValid hashing h → Step h g → HubIsValid hashing g
  unfolding set_history refresh set_demo subscribe cancel
  Step-HubIsValid h g v (applied w uid s) = elim (apply_cases hashing w uid s h) [
    | inl same ↦ rw same v
    | inr a ↦ rw a.accepted (accept-HubIsValid w a.username a.entry s h v a.found)
  ]
  Step-HubIsValid h g v (history_set w t) = update_history-HubIsValid w _ (record {
    entries = v.entries;
    trusted = v.trusted;
    listed = v.listed;
    anchored = v.anchored;
  })
  Step-HubIsValid h g v (refreshed w) = refresh-HubIsValid w h v
  Step-HubIsValid h g v (demo_set w enabled) = elim (Bool-cases (bool_beq h.demo enabled)) [
    | inl same ↦ rw same v
    | inr changed ↦ rw changed (
        refresh-HubIsValid w (record h { demo = enabled })
          (record {
            entries = v.entries;
            trusted = v.trusted;
            listed = v.listed;
            anchored = v.anchored;
          }))
  ]
  Step-HubIsValid h g v (subscribed w) = record {
    entries = v.entries;
    trusted = v.trusted;
    listed = v.listed;
    anchored = v.anchored;
  }
  Step-HubIsValid h g v (cancelled id) = record {
    entries = v.entries;
    trusted = v.trusted;
    listed = v.listed;
    anchored = v.anchored;
  }
  Step-HubIsValid h g v (received id) = record {
    entries = v.entries;
    trusted = v.trusted;
    listed = v.listed;
    anchored = v.anchored;
  }

  -- In every state that New and any calls of the hub's methods lead to, each entry is well-formed
  -- and stands under its user's name, a current snapshot in state ok is the last good one, and each
  -- trusted uid, each listed name and each expected anchor has an entry. A well-formed entry keeps
  -- no quarantined thread, none while a boundary read is awaited and none for an anchor, keeps no
  -- runtime identifier in a snapshot, and its membership is empty or, for a consumer only, the
  -- account of the last good snapshot.
  pub Reachable-HubIsValid : (h : Hub) → Reachable h → HubIsValid hashing h
  Reachable-HubIsValid h (started identities stale_after _ made) =
      new-HubIsValid hashing identities stale_after h made
  Reachable-HubIsValid h (stepped g _ r s) = Step-HubIsValid g h (Reachable-HubIsValid g r) s
