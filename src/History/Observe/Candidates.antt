-- ===== src/History/Observe/Candidates.antt =====
-- A window that reports no use opens when it has been stable.
use unibe_clan.Base.{◌+◌, ◌≤◌, ◌<◌, ◌≡◌, refl, ◌∙◌, true, false, none, some, List, arith, leb}
use unibe_clan.Base.Keys.{Text, text_eq, text_beq_iff}
use unibe_clan.Base.Int.{pos, ltb_ℤ, eqb_ℤ, eqb_ℤ_iff}
use unibe_clan.Base.Map.{lookup, insert, lookup-insert}
use unibe_clan.Base.Time.{Time}
use unibe_clan.Model.{Window}
use unibe_clan.History.Windows.{ResetWindow, propose}
use unibe_clan.History.Events.{DiskAccount, ResetEvent}
use unibe_clan.History.Tracker.{Tracker, Candidate}
use unibe_clan.History.Observe.{
  stable_after, put_account, open_window, observe_proposed, observe_window,
}
use unibe_clan.History.Observe.Laws.{observe_window_at}

-- The first observation of a window that reports no use.
abbrev pub first_candidate : Time → ResetWindow → Candidate
first_candidate now p = record {
  window = p;
  first_seen_at = now;
  last_seen_at = now;
  observations = 1;
}

lookup_put :
    {V : Type 0} (key : Text) (a : V) (m : List (Text × V)) → lookup key (insert key a m) ≡ some a
lookup_put key a m = lookup-insert key key a m ∙ ground (arith, text_beq_iff key key)

-- An account without an active window.
abbrev pub idle_account : List ResetEvent → DiskAccount
idle_account events = record { active = none; events = events }

-- The tracker after the first of the observations.
abbrev pub noted : Text → Time → ResetWindow → DiskAccount → Tracker → Tracker
noted key now p a t =
    put_account key a (record t { candidates = insert key (first_candidate now p) t.candidates })

note_candidate :
    (key : Text) (now : Time) (w : Window) (p : ResetWindow) (events : List ResetEvent)
    (t : Tracker)
    → lookup key t.accounts ≡ some (idle_account events)
    → lookup key t.candidates ≡ none
    → propose now w ≡ some p
    → ltb_ℤ (pos 0) p.used_percent ≡ false
    → (observe_window key now w t).0 ≡ noted key now p (idle_account events) t
unfolding observe_proposed open_window
note_candidate key now w p events t found fresh first zero =
    rw
      (
        observe_window_at key now w p (idle_account events) t found first,
        zero,
        fresh,
        observe_proposed,
        open_window,
      )
      refl

two_observations :
    (key : Text) (now later : Time) (w v : Window) (p q : ResetWindow) (events : List ResetEvent)
    (t : Tracker)
    → lookup key t.accounts ≡ some (idle_account events)
    → lookup key t.candidates ≡ none
    → propose now w ≡ some p
    → propose later v ≡ some q
    → ltb_ℤ (pos 0) p.used_percent ≡ false
    → ltb_ℤ (pos 0) q.used_percent ≡ false
    → p.resets_at ≡ q.resets_at
    → (lookup key (observe_window key now w t).0.accounts ≡ some (idle_account events))
      × (now + stable_after ≤ later
          → lookup key (observe_window key later v (observe_window key now w t).0).0.accounts
            ≡ some
                (record { active = some (record p { first_observed_at = now }); events = events }))
      × (later < now + stable_after
          → lookup key (observe_window key later v (observe_window key now w t).0).0.accounts
            ≡ some (idle_account events))
unfolding observe_proposed open_window
two_observations key now later w v p q events t found fresh first second zero still due =
    let again =
      observe_window_at key later v q (idle_account events)
        (noted key now p (idle_account events) t) (lookup_put key (idle_account events) t.accounts)
        second in
    let pending = lookup_put key (first_candidate now p) t.candidates in
    let same : eqb_ℤ p.resets_at q.resets_at ≡ true =
      ground (arith, eqb_ℤ_iff p.resets_at q.resets_at, due) in
    rw (note_candidate key now w p events t found fresh first zero) (
      lookup_put key (idle_account events) t.accounts,
      λ stable.
          let enough : leb (now + stable_after) later ≡ true = ground (arith, stable) in
          rw (again, still, pending, same, enough, observe_proposed, open_window)
            (lookup_put key _ _),
      λ early.
          let few : leb (now + stable_after) later ≡ false = ground (arith, early) in
          rw (again, still, pending, same, few, observe_proposed, open_window)
            (lookup_put key (idle_account events) _),
    )

-- For an account without an active window and without a candidate, two observations of a window that
-- reports no use and the same reset, the second one 90 seconds after the first or later: the first
-- one leaves the account as it is, and the second one makes the window that was first proposed the
-- active one, as observed at the time of the first.
pub unused_window_opens :
    (key : Text) (now later : Time) (w v : Window) (p q : ResetWindow) (events : List ResetEvent)
    (t : Tracker)
    → lookup key t.accounts ≡ some (idle_account events)
    → lookup key t.candidates ≡ none
    → propose now w ≡ some p
    → propose later v ≡ some q
    → ltb_ℤ (pos 0) p.used_percent ≡ false
    → ltb_ℤ (pos 0) q.used_percent ≡ false
    → p.resets_at ≡ q.resets_at
    → now + stable_after ≤ later
    → (lookup key (observe_window key now w t).0.accounts ≡ some (idle_account events))
      × (lookup key (observe_window key later v (observe_window key now w t).0).0.accounts
          ≡ some (record { active = some (record p { first_observed_at = now }); events = events }))
unused_window_opens key now later w v p q events t found fresh first second zero still due stable =
    let (left, opens, _) =
      two_observations key now later w v p q events t found fresh first second zero still due in
    (left, opens stable)

-- For an account without an active window and without a candidate, of two observations of a window
-- that reports no use and the same reset, the second one less than 90 seconds after the first leaves
-- the account without an active window.
pub unused_window_waits :
    (key : Text) (now later : Time) (w v : Window) (p q : ResetWindow) (events : List ResetEvent)
    (t : Tracker)
    → lookup key t.accounts ≡ some (idle_account events)
    → lookup key t.candidates ≡ none
    → propose now w ≡ some p
    → propose later v ≡ some q
    → ltb_ℤ (pos 0) p.used_percent ≡ false
    → ltb_ℤ (pos 0) q.used_percent ≡ false
    → p.resets_at ≡ q.resets_at
    → later < now + stable_after
    → lookup key (observe_window key later v (observe_window key now w t).0).0.accounts
      ≡ some (idle_account events)
unused_window_waits key now later w v p q events t found fresh first second zero still due early =
    let (_, _, waits) =
      two_observations key now later w v p q events t found fresh first second zero still due in
    waits early
