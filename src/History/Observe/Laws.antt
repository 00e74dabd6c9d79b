-- ===== src/History/Observe/Laws.antt =====
-- What observing and rebaselining do to the account concerned.
use unibe_clan.Base.{
  ◌≡◌, ◌⊎◌, refl, ap, ◌∙◌, inl, inr, Bool, true, false, some, List, arith, Bool-cases, Option-cases,
}
use unibe_clan.Base.Keys.{Text, text_eq, text_beq_iff}
use unibe_clan.Base.Int.{pos, ltb_ℤ, eqb_ℤ, eqb_ℤ_iff}
use unibe_clan.Base.Map.{lookup, insert, lookup-insert}
use unibe_clan.Base.Time.{Time, unix}
use unibe_clan.Model.{Window}
use unibe_clan.History.Windows.{
  ResetWindow, propose, reset_timestamps_equivalent, meaningfully_before_reset,
}
use unibe_clan.History.Events.{DiskAccount}
use unibe_clan.History.Tracker.{Tracker, account_of}
use unibe_clan.History.Observe.{
  set_used, observe_same, open_window, observe_early, observe_ended, observe_proposed,
  observe_window, replace_window, shows_reset, rebaseline_proposed, rebaseline_window,
}

account_of-put :
    (key : Text) (a : DiskAccount) (m : List (Text × DiskAccount))
    → account_of key (insert key a m) ≡ a
unfolding account_of
account_of-put key a m =
    rw (lookup-insert key key a m, account_of) (ground (arith, text_beq_iff key key))

pub observe_window_at :
    (key : Text) (now : Time) (w : Window) (p : ResetWindow) (a : DiskAccount) (t : Tracker)
    → lookup key t.accounts ≡ some a
    → propose now w ≡ some p
    → observe_window key now w t ≡ observe_proposed key now p a t
unfolding observe_window
observe_window_at key now w p a t found proposed = rw (found, proposed, observe_window) refl

rebaseline_window_at :
    (key : Text) (now : Time) (w : Window) (p : ResetWindow) (a : DiskAccount) (t : Tracker)
    → lookup key t.accounts ≡ some a
    → propose now w ≡ some p
    → rebaseline_window key now w t ≡ rebaseline_proposed key now p a t
unfolding rebaseline_window
rebaseline_window_at key now w p a t found proposed = rw (found, proposed, rebaseline_window) refl

-- A result that records nothing.
abbrev pub Silent : Text → DiskAccount → Tracker → Tracker × Bool × Bool → Type 0
Silent key a t r =
    (r.0.adjustments ≡ t.adjustments)
    × ((account_of key r.0.accounts).events ≡ a.events)
    × (r.2 ≡ false)

replace_window-Silent :
    (key : Text) (now : Time) (p : ResetWindow) (a : DiskAccount) (t : Tracker)
    → Silent key a t (replace_window key now p a t)
unfolding replace_window
replace_window-Silent key now p a t = elim (Bool-cases (ltb_ℤ (pos 0) p.used_percent)) [
  | inl used ↦
      rw (used, replace_window)
        (refl, ap (λ (b : DiskAccount). b.events) (account_of-put key _ _), refl)
  | inr unused ↦
      rw (unused, replace_window)
        (refl, ap (λ (b : DiskAccount). b.events) (account_of-put key _ _), refl)
]

-- Rebaselining an account on a window that is the active one, up to the jitter, or that does not show
-- a reset of it, records nothing: the adjustments stay, the account's events stay, and the change of
-- the adjustments is not reported.
pub rebaseline_silent :
    (key : Text) (now : Time) (w : Window) (p active : ResetWindow) (a : DiskAccount) (t : Tracker)
    → lookup key t.accounts ≡ some a
    → a.active ≡ some active
    → propose now w ≡ some p
    → (reset_timestamps_equivalent active.resets_at p.resets_at ≡ true)
      ⊎ (shows_reset now active p ≡ false)
    → ((rebaseline_window key now w t).0.adjustments ≡ t.adjustments)
      × ((account_of key (rebaseline_window key now w t).0.accounts).events ≡ a.events)
      × ((rebaseline_window key now w t).2 ≡ false)
unfolding rebaseline_proposed
rebaseline_silent key now w p active a t found running proposed calm =
    let replaced = replace_window-Silent key now p a t in
    rw (rebaseline_window_at key now w p a t found proposed)
      (elim (Bool-cases (reset_timestamps_equivalent active.resets_at p.resets_at)) [
        | inl same ↦
            rw (running, same, rebaseline_proposed)
              (refl, ap (λ (b : DiskAccount). b.events) (account_of-put key _ _), refl)
        | inr other ↦
            let no_reset : shows_reset now active p ≡ false = ground (arith, calm, other) in
            rw (running, other, no_reset, rebaseline_proposed) replaced
      ])

-- The account's window after an observation of use.
abbrev pub Opened : Text → ResetWindow → Tracker → Type 0
Opened key p t =
    (w : ResetWindow) × ((account_of key t.accounts).active ≡ some w)
    × (w.used_percent ≡ p.used_percent)
    × ((w.resets_at ≡ p.resets_at) ⊎ (reset_timestamps_equivalent w.resets_at p.resets_at ≡ true))

open_window-Opened :
    (key : Text) (now : Time) (p : ResetWindow) (a : DiskAccount) (changed : Bool) (t : Tracker)
    → ltb_ℤ (pos 0) p.used_percent ≡ true
    → Opened key p (open_window key now p a changed t).0
unfolding open_window
open_window-Opened key now p a changed t used =
    rw (used, open_window)
      (p, ap (λ (b : DiskAccount). b.active) (account_of-put key _ _), refl, inl refl)

observe_same-Opened :
    (key : Text) (now : Time) (active p : ResetWindow) (a : DiskAccount) (t : Tracker)
    → reset_timestamps_equivalent active.resets_at p.resets_at ≡ true
    → Opened key p (observe_same key now active p a t).0
unfolding observe_same
observe_same-Opened key now active p a t same =
    elim (Bool-cases (eqb_ℤ active.used_percent p.used_percent)) [
      | inl kept ↦
          rw (kept, observe_same)
            (
              active,
              ap (λ (b : DiskAccount). b.active) (account_of-put key _ _),
              ground (arith, eqb_ℤ_iff active.used_percent p.used_percent, kept),
              inr same,
            )
      | inr moved ↦
          rw (moved, observe_same)
            (
              set_used active p.used_percent,
              ap (λ (b : DiskAccount). b.active) (account_of-put key _ _),
              refl,
              inr same,
            )
    ]

-- After an observation of a window in use for an account that the tracker has, the account's active
-- window reports the observed usage, and resets when the observed one does, up to the jitter: whether
-- the account had no window, the same, one that was replaced early, or one that ended.
pub observe_opens :
    (key : Text) (now : Time) (w : Window) (p : ResetWindow) (a : DiskAccount) (t : Tracker)
    → lookup key t.accounts ≡ some a
    → propose now w ≡ some p
    → ltb_ℤ (pos 0) p.used_percent ≡ true
    → Opened key p (observe_window key now w t).0
unfolding observe_proposed observe_early observe_ended
observe_opens key now w p a t found proposed used =
    rw (observe_window_at key now w p a t found proposed) (elim (Option-cases (a.active)) [
      | inl idle ↦ rw (idle, observe_proposed) (open_window-Opened key now p a false t used)
      | inr (active, running) ↦
          elim (Bool-cases (reset_timestamps_equivalent active.resets_at p.resets_at)) [
            | inl same ↦
                rw (running, same, observe_proposed) (observe_same-Opened key now active p a t same)
            | inr other ↦
                elim (Bool-cases (meaningfully_before_reset active.resets_at (unix now))) [
                  | inl early ↦
                      rw (running, other, early, observe_proposed)
                        (open_window-Opened key now p _ true _ used)
                  | inr ended ↦
                      rw (running, other, ended, observe_proposed)
                        (open_window-Opened key now p _ true t used)
                ]
          ]
    ])

-- Once a window is active, observing it again with the same usage changes nothing but a pending
-- candidate: no account, no adjustment, and no change is reported.
pub observe_again :
    (key : Text) (now : Time) (w : Window) (p active : ResetWindow) (a : DiskAccount) (t : Tracker)
    → lookup key t.accounts ≡ some a
    → a.active ≡ some active
    → propose now w ≡ some p
    → reset_timestamps_equivalent active.resets_at p.resets_at ≡ true
    → active.used_percent ≡ p.used_percent
    → ((other : Text)
        → lookup other (observe_window key now w t).0.accounts ≡ lookup other t.accounts)
      × ((observe_window key now w t).0.adjustments ≡ t.adjustments)
      × ((observe_window key now w t).1 ≡ false)
      × ((observe_window key now w t).2 ≡ false)
unfolding observe_proposed observe_same
observe_again key now w p active a t found running proposed same used =
    let kept : eqb_ℤ active.used_percent p.used_percent ≡ true =
      ground (arith, eqb_ℤ_iff active.used_percent p.used_percent, used) in
    let level : ltb_ℤ p.used_percent active.used_percent ≡ false = ground (arith, used) in
    let same_account : a ≡ record { active = some active; events = a.events } =
      ap (λ o. record { active = o; events = a.events }) running in
    rw
      (
        observe_window_at key now w p a t found proposed,
        running,
        same,
        kept,
        level,
        observe_proposed,
        observe_same,
      )
      ((
        λ other.
            lookup-insert key other (record { active = some active; events = a.events }) t.accounts
            ∙ ground (arith, text_beq_iff key other, found, same_account),
        refl,
        refl,
        refl,
      ))
