-- ===== src/History/Observe/Keeps.antt =====
-- Observing or rebaselining a window keeps the tracker valid, and so does a whole snapshot.
use unibe_clan.Base.{
  ◌+◌, ◌≡◌, ◌≢◌, refl, inl, inr, Bool, true, false, ◌&&◌, arith, leb, Bool-cases, Option-cases,
}
use unibe_clan.Base.Keys.{Text, text_eq}
use unibe_clan.Base.Int.{pos, ltb_ℤ, eqb_ℤ}
use unibe_clan.Base.Map.{lookup, All-lookup}
use unibe_clan.Base.Time.{Time, unix}
use unibe_clan.History.Windows.{
  ResetWindow, valid_window, reset_timestamps_equivalent, meaningfully_before_reset,
}
use unibe_clan.History.Events.{DiskAccount, event_of, valid_active}
use unibe_clan.History.Events.Append.{AccountIsValid, append_event-EventsAreValid, event_of_valid}
use unibe_clan.History.Tracker.{Tracker}
use unibe_clan.History.Tracker.Valid.{IsValid, CandidateIsValid}
use unibe_clan.History.Observe.{
  stable_after, observe_same, open_window, observe_early, observe_ended, observe_proposed,
}
use unibe_clan.History.Observe.Parts.{
  IsAt, put_account-IsValid, drop_candidate-IsAt, put_candidate-IsAt, record_adjustment-IsAt,
  with_active, without_active, set_used-valid, first_seen_valid,
}

module _ (key : Text) (now : Time) (nonzero : now ≢ 0) where
  observe_same-IsValid :
      (active proposed : ResetWindow) (a : DiskAccount) (t : Tracker)
      → IsAt key t
      → AccountIsValid a
      → valid_window active ≡ true
      → valid_window proposed ≡ true
      → IsValid (observe_same key now active proposed a t).0
  unfolding observe_same
  observe_same-IsValid active proposed a t at va vw vp =
      let used = proposed.used_percent in
      let to_set = set_used-valid active proposed vw vp in
      elim (Bool-cases (ltb_ℤ used active.used_percent)) [
        | inl lower ↦ elim (Bool-cases (eqb_ℤ active.used_percent used)) [
          | inl kept ↦
              rw (lower, kept, observe_same)
                (put_account-IsValid key _ _
                  (drop_candidate-IsAt key _ (record_adjustment-IsAt key now _ active _ t at))
                  (with_active a active va vw))
          | inr moved ↦
              rw (lower, moved, observe_same)
                (put_account-IsValid key _ _
                  (drop_candidate-IsAt key _ (record_adjustment-IsAt key now _ active _ t at))
                  (with_active a _ va to_set))
        ]
        | inr higher ↦ elim (Bool-cases (eqb_ℤ active.used_percent used)) [
          | inl kept ↦
              rw (higher, kept, observe_same)
                (put_account-IsValid key _ _ (drop_candidate-IsAt key t at)
                  (with_active a active va vw))
          | inr moved ↦
              rw (higher, moved, observe_same)
                (put_account-IsValid key _ _ (drop_candidate-IsAt key t at)
                  (with_active a _ va to_set))
        ]
      ]

  first_candidate :
      (w : ResetWindow)
      → valid_window w ≡ true
      → CandidateIsValid
          (record { window = w; first_seen_at = now; last_seen_at = now; observations = 1 })
  first_candidate w fine = record { window = fine; seen = nonzero }

  open_window-IsValid :
      (proposed : ResetWindow) (a : DiskAccount) (changed : Bool) (t : Tracker)
      → IsAt key t
      → AccountIsValid a
      → valid_window proposed ≡ true
      → IsValid (open_window key now proposed a changed t).0
  unfolding open_window
  open_window-IsValid proposed a changed t at va vp =
      let starts =
        put_account-IsValid key a _ (put_candidate-IsAt key _ t (first_candidate proposed vp) at)
          va in
      elim (Bool-cases (ltb_ℤ (pos 0) proposed.used_percent)) [
        | inl used ↦
            rw (used, open_window)
              (put_account-IsValid key _ _ (drop_candidate-IsAt key t at)
                (with_active a proposed va vp))
        | inr unused ↦ elim (Option-cases (lookup key t.candidates)) [
          | inl first ↦ rw (unused, first, open_window) starts
          | inr (c, again) ↦
              let vc = All-lookup _ key c t.candidates at.valid.parts.candidates again in
              elim (Bool-cases (eqb_ℤ c.window.resets_at proposed.resets_at)) [
                | inr other ↦ rw (unused, again, other, open_window) starts
                | inl same ↦
                    elim (Bool-cases
                      (leb 2 (c.observations + 1) && leb (c.first_seen_at + stable_after) now)) [
                        | inl stable ↦
                            rw (unused, again, same, stable, open_window)
                              (put_account-IsValid key _ _ (drop_candidate-IsAt key t at) (
                                with_active a _ va
                                  (first_seen_valid c.window c.first_seen_at vc.seen vc.window)))
                        | inr young ↦
                            rw (unused, again, same, young, open_window)
                              (put_account-IsValid key a _
                                (put_candidate-IsAt key _ t
                                  (record { window = vc.window; seen = vc.seen }) at)
                                va)
                      ]
              ]
        ]
      ]

  pub observe_proposed-IsValid :
      (proposed : ResetWindow) (a : DiskAccount) (t : Tracker)
      → IsAt key t
      → AccountIsValid a
      → valid_window proposed ≡ true
      → IsValid (observe_proposed key now proposed a t).0
  unfolding observe_proposed observe_early observe_ended valid_active
  observe_proposed-IsValid proposed a t at va vp = elim (Option-cases (a.active)) [
    | inl idle ↦ rw (idle, observe_proposed) (open_window-IsValid proposed a false t at va vp)
    | inr (active, running) ↦
        let vw : valid_window active ≡ true = ground (arith, va.active, running) in
        elim (Bool-cases (reset_timestamps_equivalent active.resets_at proposed.resets_at)) [
          | inl same ↦
              rw (running, same, observe_proposed)
                (observe_same-IsValid active proposed a t at va vw vp)
          | inr other ↦ elim (Bool-cases (meaningfully_before_reset active.resets_at (unix now))) [
            | inl early ↦
                rw (running, other, early, observe_proposed)
                  (open_window-IsValid proposed _ true _
                    (drop_candidate-IsAt key _
                      (record_adjustment-IsAt key now _ active proposed t at))
                    (without_active a va) vp)
            | inr ended ↦
                rw (running, other, ended, observe_proposed)
                  (open_window-IsValid proposed _ true t at
                    (record {
                      events =
                          append_event-EventsAreValid a.events (event_of now active)
                            (event_of_valid now active nonzero vw) va.events;
                      active = refl;
                    })
                    vp)
          ]
        ]
  ]
