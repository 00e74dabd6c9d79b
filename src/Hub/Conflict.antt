-- ===== src/Hub/Conflict.antt =====
-- internal/hub/hub.go: whether the fresh sources of an account disagree. The fields of a pointer are
-- read only where it is not nil.
pub mod Tolerance
use unibe_clan.Base.{
  ℕ, Bool, true, false, not, ◌&&◌, ◌||◌, Option, none, some, List, [], ◌∷◌, length, if◌then◌else◌,
  ◌==◌ as nat_beq,
}
use unibe_clan.Base.Keys.{Text, text_beq, text_eq}
use unibe_clan.Base.Int.{ℤ, pos, ltb_ℤ, leb_ℤ, eqb_ℤ, sub_int64}
use unibe_clan.Base.Map.{lookup, insert}
use unibe_clan.Model.{Account, Window, Credits, IndividualLimit, RateLimit, Snapshot, Hashing}
use unibe_clan.Model.Names.{fields, join}

abbrev pub quota_percent_tolerance : ℤ
quota_percent_tolerance = pos 5

abbrev pub quota_reset_tolerance : ℤ
quota_reset_tolerance = pos 300

-- `withinIntTolerance` and `withinInt64Tolerance`: an `int` has 64 bits here.
unfoldable pub within_tolerance : ℤ → ℤ → ℤ → Bool
within_tolerance left right tolerance =
    let difference = sub_int64 left right in
    if ltb_ℤ difference (pos 0)
    then leb_ℤ (sub_int64 (pos 0) difference) tolerance
    else leb_ℤ difference tolerance

-- Two pointers: both nil, or neither and their values are related.
abbrev pub same_pointers {ℓ} : {A : Type ℓ} → (A → A → Bool) → Option A → Option A → Bool
same_pointers same none none = true
same_pointers same none (some b) = false
same_pointers same (some a) none = false
same_pointers same (some a) (some b) = same a b

unfoldable pub bool_beq : Bool → Bool → Bool
bool_beq true b = b
bool_beq false b = not b

-- `timestampsEquivalent`
unfoldable pub timestamps_equivalent : Option ℤ → Option ℤ → Bool
timestamps_equivalent left right =
    same_pointers (λ a b. within_tolerance a b quota_reset_tolerance) left right

unfoldable pub same_window : Window → Window → Bool
same_window left right =
    within_tolerance left.used_percent right.used_percent quota_percent_tolerance
    && within_tolerance left.remaining_percent right.remaining_percent quota_percent_tolerance
    && same_pointers eqb_ℤ left.window_duration_mins right.window_duration_mins
    && timestamps_equivalent left.resets_at right.resets_at

unfoldable pub windows_equivalent : Option Window → Option Window → Bool
windows_equivalent left right = same_pointers same_window left right

unfoldable pub same_credits : Credits → Credits → Bool
same_credits left right =
    bool_beq left.has_credits right.has_credits
    && bool_beq left.unlimited right.unlimited
    && same_pointers text_beq left.balance right.balance

unfoldable pub same_individual_limit : IndividualLimit → IndividualLimit → Bool
same_individual_limit left right =
    text_beq left.limit right.limit
    && within_tolerance left.remaining_percent right.remaining_percent quota_percent_tolerance
    && within_tolerance left.resets_at right.resets_at quota_reset_tolerance

module _ (hashing : Hashing) where
  unfoldable pub normalized_display_text : Text → Text
  normalized_display_text value = hashing.to_lower (join (fields [] value))

  unfoldable pub same_display_text : Text → Text → Bool
  same_display_text left right =
      text_beq (normalized_display_text left) (normalized_display_text right)

  unfoldable pub same_account : Account → Account → Bool
  same_account left right =
      text_beq left.kind right.kind && same_display_text left.plan_type right.plan_type

  unfoldable pub rate_limits_equivalent : RateLimit → RateLimit → Bool
  rate_limits_equivalent left right =
      text_beq left.id right.id
      && same_pointers same_display_text left.name right.name
      && same_pointers same_display_text left.plan_type right.plan_type
      && windows_equivalent left.primary right.primary
      && windows_equivalent left.secondary right.secondary
      && same_pointers same_credits left.credits right.credits
      && same_pointers same_individual_limit left.individual_limit right.individual_limit
      && same_pointers bool_beq left.spend_control_reached right.spend_control_reached
      && same_pointers text_beq left.reached_type right.reached_type

  -- `rightByID`
  unfoldable pub index_limits : List RateLimit → List (Text × RateLimit) → List (Text × RateLimit)
  index_limits [] m = m
  index_limits (l ∷ ls) m = index_limits ls (insert l.id l m)

  -- The last loop of `quotaSnapshotsEquivalent`.
  unfoldable pub limits_found : List (Text × RateLimit) → List RateLimit → Bool
  limits_found by_id [] = true
  limits_found by_id (l ∷ ls) =
      let rest = limits_found by_id ls in
      elim (lookup l.id by_id) [
        | none ↦ false
        | some other ↦ if rate_limits_equivalent l other then rest else false
      ]

  unfoldable pub limits_equivalent : List RateLimit → List RateLimit → Bool
  limits_equivalent left right =
      let by_id = index_limits right [] in
      nat_beq (length left) (length right)
      && nat_beq (length by_id) (length right)
      && limits_found by_id left

  unfoldable pub quota_snapshots_equivalent : Snapshot → Snapshot → Bool
  quota_snapshots_equivalent left right =
      same_pointers same_account left.account right.account
      && windows_equivalent left.main_usage right.main_usage
      && same_pointers eqb_ℤ left.reset_credits_available right.reset_credits_available
      && limits_equivalent left.limits right.limits

  -- The inner loop of `snapshotsConflict`.
  unfoldable pub conflicts_with : Snapshot → List Snapshot → Bool
  conflicts_with left [] = false
  conflicts_with left (right ∷ rights) =
      let rest = conflicts_with left rights in
      if not (quota_snapshots_equivalent left right) then true else rest

  unfoldable pub snapshots_conflict : List Snapshot → Bool
  snapshots_conflict [] = false
  snapshots_conflict (s ∷ ss) =
      let rest = snapshots_conflict ss in if conflicts_with s ss then true else rest
