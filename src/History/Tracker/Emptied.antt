-- ===== src/History/Tracker/Emptied.antt =====
-- The deletion of the accounts that retention has emptied loses nothing.
use unibe_clan.Base.{◌≡◌, refl, inl, inr, List, [], ◌∷◌, arith, keep, length, ltb, Bool-cases}
use unibe_clan.Base.Keys.{Text, text_eq, text_beq_iff}
use unibe_clan.Base.Map.{lookup, Unique, lookup-delete, lookup-keep_absent}
use unibe_clan.History.Events.{DiskAccount}
use unibe_clan.History.Tracker.{
  Tracker, account_of, adjustments_of, keeps_account, drop_adjustments, prune_empty_accounts,
}

module _ (t : Tracker) (key : Text) where
  -- An account that goes has nothing to lose.
  account_of-keep :
      (m : List (Text × DiskAccount))
      → Unique m
      → account_of key (keep (keeps_account t) m) ≡ account_of key m
  unfolding account_of keep lookup keeps_account
  account_of-keep [] u = refl
  account_of-keep ((k, a) ∷ m) u = ground (
    arith,
    account_of-keep m u.1,
    lookup-keep_absent (keeps_account t) k m u.0,
    text_beq_iff k key,
  )

  adjustments_of-drop_adjustments :
      (m : List (Text × DiskAccount))
      → adjustments_of key (drop_adjustments t m) ≡ adjustments_of key t.adjustments
  unfolding adjustments_of drop_adjustments keeps_account
  adjustments_of-drop_adjustments [] = refl
  adjustments_of-drop_adjustments ((k, a) ∷ m) = ground (
    arith,
    adjustments_of-drop_adjustments m,
    lookup-delete k key (drop_adjustments t m),
    text_beq_iff k key,
  )

module _ (key : Text) where
  pub prune_empty_accounts-account_of :
      (d : Tracker)
      → Unique d.accounts
      → account_of key (prune_empty_accounts d).0.accounts ≡ account_of key d.accounts
  unfolding prune_empty_accounts
  prune_empty_accounts-account_of d u =
      elim (Bool-cases (ltb (length (keep (keeps_account d) d.accounts)) (length d.accounts))) [
        | inr all_stay ↦ rw (all_stay, prune_empty_accounts)
        | inl fewer ↦ rw (fewer, prune_empty_accounts) (account_of-keep d key d.accounts u)
      ]

  pub prune_empty_accounts-adjustments_of :
      (d : Tracker)
      → adjustments_of key (prune_empty_accounts d).0.adjustments ≡ adjustments_of key d.adjustments
  unfolding prune_empty_accounts
  prune_empty_accounts-adjustments_of d =
      elim (Bool-cases (ltb (length (keep (keeps_account d) d.accounts)) (length d.accounts))) [
        | inr all_stay ↦ rw (all_stay, prune_empty_accounts)
        | inl fewer ↦
            rw (fewer, prune_empty_accounts) (adjustments_of-drop_adjustments d key d.accounts)
      ]

  pub prune_empty_accounts-candidates :
      (d : Tracker) → (prune_empty_accounts d).0.candidates ≡ d.candidates
  unfolding prune_empty_accounts
  prune_empty_accounts-candidates d = ground arith
