-- ===== src/History/Reconcile/Chain.antt =====
-- Which of the loaded adjustments reconciling an account takes over.
use unibe_clan.Base.{
  ℕ, ◌≡◌, ◌⊎◌, inl, inr, refl, Bool, true, false, ◌&&◌, Option, none, some, List, [], ◌∷◌, arith,
  All, Bool-cases, ◌==◌ as nat_beq,
}
use unibe_clan.Base.Int.{pos, eqb_ℤ, eqb_ℤ_iff}
use unibe_clan.History.Windows.{ResetWindow, WindowObservation, window_observation}
use unibe_clan.History.Adjustments.{
  StoredAdjustment, reset_timestamp_changed, same_observation, has_reason,
}
use unibe_clan.History.Reconcile.{adjusted_active, reconcile_active, reconcile_account}

-- The adjustment was recorded at the revision, of a window that is as observed.
abbrev pub IsNext : ℕ → WindowObservation → StoredAdjustment → Type 0
IsNext core_revision before s =
    (s.core_revision_before ≡ core_revision) × (same_observation s.adjustment.before before ≡ true)

-- From an observation, each adjustment that is next leads on to the one that is next after it: the
-- list leads to the last adjustment of this chain.
pub data Leads (core_revision : ℕ)
    : WindowObservation → List StoredAdjustment → StoredAdjustment → Type 0 where
  last :
      {before : WindowObservation} {s : StoredAdjustment} {ss : List StoredAdjustment}
      → IsNext core_revision before s
      → All (λ r. ¬ IsNext core_revision s.adjustment.after r) ss
      → Leads core_revision before (s ∷ ss) s
  skip :
      {before : WindowObservation} {x s : StoredAdjustment} {ss : List StoredAdjustment}
      → ¬ IsNext core_revision before x
      → Leads core_revision before ss s
      → Leads core_revision before (x ∷ ss) s
  next :
      {before : WindowObservation} {x s : StoredAdjustment} {ss : List StoredAdjustment}
      → IsNext core_revision before x
      → Leads core_revision x.adjustment.after ss s
      → Leads core_revision before (x ∷ ss) s

-- The window after the adjustment.
pub record IsAfter (s : StoredAdjustment) (w : ResetWindow) : Type 0 where
  pub started : w.window_started_at ≡ s.adjustment.after.window_started_at
  pub resets : w.resets_at ≡ s.adjustment.after.resets_at
  pub observed : w.first_observed_at ≡ s.adjustment.after.first_observed_at
  pub used : w.used_percent ≡ s.adjustment.after.used_percent

-- The reset moved and the window after is unused.
abbrev pub IsUnused : StoredAdjustment → Type 0
IsUnused s =
    (has_reason reset_timestamp_changed s.adjustment.reasons ≡ true)
    × (s.adjustment.after.used_percent ≡ pos 0)

-- What the adjustment leaves: no window where the one after is unused, and else the one after.
abbrev pub IsTakenOver : StoredAdjustment → Option ResetWindow → Type 0
IsTakenOver s none = IsUnused s
IsTakenOver s (some w) = (¬ IsUnused s) × IsAfter s w

adjusted_active-IsTakenOver : (s : StoredAdjustment) → IsTakenOver s (adjusted_active s)
unfolding adjusted_active
adjusted_active-IsTakenOver s =
    elim (Bool-cases (
      has_reason reset_timestamp_changed s.adjustment.reasons
      && eqb_ℤ s.adjustment.after.used_percent (pos 0))) [
        | inl unused ↦ rw unused (ground (arith, eqb_ℤ_iff s.adjustment.after.used_percent (pos 0)))
        | inr in_use ↦ rw in_use (
          λ h. ground (arith, eqb_ℤ_iff s.adjustment.after.used_percent (pos 0)),
          record { started = refl; resets = refl; observed = refl; used = refl },
        )
      ]

-- What reconciling makes of an active window: its result, told by the chain.
abbrev pub Reconciled :
    ℕ
    → List StoredAdjustment
    → Option ResetWindow
    → WindowObservation
    → Option ResetWindow × Bool
    → Type 0
Reconciled core_revision ss active before result =
    (All (λ r. ¬ IsNext core_revision before r) ss × (result ≡ (active, false)))
    ⊎ ((s : StoredAdjustment) × Leads core_revision before ss s
        × IsTakenOver s result.0
        × (result.1 ≡ true))

reconcile_active-Reconciled :
    (core_revision : ℕ) (ss : List StoredAdjustment) (active : Option ResetWindow)
    (before : WindowObservation)
    → Reconciled core_revision ss active before (reconcile_active core_revision ss active before)
unfolding reconcile_active
reconcile_active-Reconciled core_revision [] active before = inl (tt, refl)
reconcile_active-Reconciled core_revision (x ∷ ss) active before =
    elim (Bool-cases (
      nat_beq x.core_revision_before core_revision
      && same_observation x.adjustment.before before)) [
        | inl taken ↦
            let now_next : IsNext core_revision before x = (ground arith, ground arith) in
            rw taken
              (elim (reconcile_active-Reconciled core_revision ss (adjusted_active x)
                x.adjustment.after) [
                  | inl (ended, same) ↦
                      inr (x, last now_next ended, rw same (adjusted_active-IsTakenOver x), refl)
                  | inr (s, leads, made, changed) ↦ inr (s, next now_next leads, made, refl)
                ])
        | inr skipped ↦
            let not_next : ¬ IsNext core_revision before x = λ h. ground arith in
            rw skipped (elim (reconcile_active-Reconciled core_revision ss active before) [
              | inl (ended, same) ↦ inl ((not_next, ended), same)
              | inr (s, leads, made, changed) ↦ inr (s, skip not_next leads, made, changed)
            ])
      ]

-- Reconciling an account that has an active window follows the chain of the adjustments that were
-- recorded at the revision of the history, from the active window on, each one from the window
-- after the one before. Where there is none, the account is unchanged and no change is reported.
-- Else a change is reported, and what is active is the window after the last adjustment of the
-- chain, or none where that one moved the reset and its window is unused.
pub reconcile_account_chain :
    (core_revision : ℕ) (ss : List StoredAdjustment) (w : ResetWindow)
    → Reconciled core_revision ss
        (some w)
        (window_observation w)
        (reconcile_account core_revision ss (some w))
unfolding reconcile_account
reconcile_account_chain core_revision ss w =
    reconcile_active-Reconciled core_revision ss (some w) (window_observation w)
