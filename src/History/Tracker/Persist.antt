-- ===== src/History/Tracker/Persist.antt =====
-- What a valid tracker writes passes the validation that reads it back, and what a commit leaves.
use unibe_clan.Base.{
  ◌≤◌, ◌≡◌, inl, inr, ◌&&◌, true, List, [], ◌∷◌, arith, All, All-map, all, all_of_All, length, leb,
  Option-cases,
}
use unibe_clan.Base.Keys.{Text, text_eq}
use unibe_clan.Base.Map.{lookup, All-insert, All-lookup, length-insert-le}
use unibe_clan.History.Windows.{valid_account_key}
use unibe_clan.History.Adjustments.{StoredAdjustment, valid_adjustment, max_adjustments}
use unibe_clan.History.Adjustments.Append.{AdjustmentsAreValid}
use unibe_clan.History.Events.{DiskAccount, valid_account}
use unibe_clan.History.Events.Append.{AccountIsValid, AccountIsValid→valid_account}
use unibe_clan.History.Tracker.{
  Tracker, account_of, adjustments_of, disk_state, adjustment_disk_state, validate_disk_state,
  validate_adjustment_disk_state, ordered_accounts, ordered_adjustments,
}
use unibe_clan.History.Tracker.Valid.{
  IsValid, adjustments_of-AdjustmentsAreValid, empty_account-AccountIsValid,
}

account_of-AccountIsValid :
    (key : Text) (m : List (Text × DiskAccount))
    → All (λ e. (valid_account_key e.0 ≡ true) × AccountIsValid e.1) m
    → AccountIsValid (account_of key m)
unfolding account_of
account_of-AccountIsValid key m v = elim (Option-cases (lookup key m)) [
  | inl missing ↦ rw (missing, account_of) empty_account-AccountIsValid
  | inr (a, found) ↦ rw (found, account_of) (All-lookup _ key a m v found).1
]

ordered_accounts-All :
    (order : List Text) (m : List (Text × DiskAccount))
    → All (λ k. valid_account_key k ≡ true) order
    → All (λ e. (valid_account_key e.0 ≡ true) × AccountIsValid e.1) m
    → All (λ e. (valid_account_key e.0 ≡ true) × AccountIsValid e.1) (ordered_accounts order m)
unfolding ordered_accounts
ordered_accounts-All [] m h v = tt
ordered_accounts-All (k ∷ ks) m h v =
    All-insert _ k (account_of k m) (ordered_accounts ks m) (h.0, account_of-AccountIsValid k m v)
      (ordered_accounts-All ks m h.1 v)

ordered_adjustments-All :
    (order : List Text) (m : List (Text × List StoredAdjustment))
    → All (λ k. valid_account_key k ≡ true) order
    → All (λ e. AdjustmentsAreValid e.1) m
    → All
        (λ e. (valid_account_key e.0 ≡ true) × AdjustmentsAreValid e.1)
        (ordered_adjustments order m)
unfolding ordered_adjustments
ordered_adjustments-All [] m h v = tt
ordered_adjustments-All (k ∷ ks) m h v =
    All-insert _ k (adjustments_of k m) (ordered_adjustments ks m)
      (h.0, adjustments_of-AdjustmentsAreValid k m v) (ordered_adjustments-All ks m h.1 v)

length-ordered_accounts-le :
    (order : List Text) (m : List (Text × DiskAccount))
    → length (ordered_accounts order m) ≤ length order
unfolding ordered_accounts
length-ordered_accounts-le [] m = omega arith
length-ordered_accounts-le (k ∷ ks) m = omega (
  arith,
  length-insert-le k (account_of k m) (ordered_accounts ks m),
  length-ordered_accounts-le ks m,
)

length-ordered_adjustments-le :
    (order : List Text) (m : List (Text × List StoredAdjustment))
    → length (ordered_adjustments order m) ≤ length order
unfolding ordered_adjustments
length-ordered_adjustments-le [] m = omega arith
length-ordered_adjustments-le (k ∷ ks) m = omega (
  arith,
  length-insert-le k (adjustments_of k m) (ordered_adjustments ks m),
  length-ordered_adjustments-le ks m,
)

adjustments_check :
    (s : List StoredAdjustment)
    → AdjustmentsAreValid s
    → (leb (length s) max_adjustments ≡ true) × (all valid_adjustment s ≡ true)
adjustments_check s v = (ground (arith, v.bounded), all_of_All valid_adjustment s v.each)

disk_state_valid : (t : Tracker) → IsValid t → validate_disk_state (disk_state t) ≡ true
unfolding validate_disk_state
disk_state_valid t v = ground (
  arith,
  v.counting,
  v.since,
  v.order.bounded,
  length-ordered_accounts-le t.order t.accounts,
  all_of_All _ (ordered_accounts t.order t.accounts) (
      All-map _ (λ e. (valid_account_key e.0 && valid_account e.1) ≡ true)
        (λ e h. ground (arith, h.0, AccountIsValid→valid_account e.1 h.1)) _
        (ordered_accounts-All t.order t.accounts v.order.keyed v.parts.accounts)),
)

adjustment_disk_state_valid :
    (t : Tracker) → IsValid t → validate_adjustment_disk_state (adjustment_disk_state t) ≡ true
unfolding validate_adjustment_disk_state
adjustment_disk_state_valid t v = ground (
  arith,
  v.counting,
  v.adjustments_since,
  v.order.bounded,
  length-ordered_adjustments-le t.order t.adjustments,
  all_of_All _ (ordered_adjustments t.order t.adjustments) (
      All-map _
        (λ e.
          (valid_account_key e.0 && leb (length e.1) max_adjustments && all valid_adjustment e.1)
          ≡ true)
        (λ e h. ground (arith, h.0, adjustments_check e.1 h.1)) _
        (ordered_adjustments-All t.order t.adjustments v.order.keyed v.parts.adjustments)),
)

-- Neither of the two states that a valid tracker writes is refused by its validation.
pub disk_states_valid :
    (t : Tracker)
    → IsValid t
    → (validate_disk_state (disk_state t) ≡ true)
      × (validate_adjustment_disk_state (adjustment_disk_state t) ≡ true)
disk_states_valid t v = (disk_state_valid t v, adjustment_disk_state_valid t v)
