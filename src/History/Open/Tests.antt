-- ===== src/History/Open/Tests.antt =====
-- The loading of a history on a tracker of one account.
use unibe_clan.Base.{ℕ, ◌+◌, ◌*◌, ◌≡◌, refl, false, [], arith, if◌then◌else◌}
use unibe_clan.Base.Keys.{Text, text_eq}
use unibe_clan.Base.Map.{has, lookup}
use unibe_clan.Base.Result.{ok}
use unibe_clan.Base.Sort.{sort_by}
use unibe_clan.Base.Time.{Time, second}
use unibe_clan.Base.Unicode.{text}
use unibe_clan.History.Tracker.{
  Tracker, ensure_account, adjustments_of, disk_state, adjustment_disk_state, keys,
}
use unibe_clan.History.Tracker.Valid.{IsValid, ensure_account-IsValid}
use unibe_clan.History.Open.{found, blank, load_files}
use unibe_clan.History.Open.Loads.{load_files_roundtrip}

-- 2023-11-14 22:13:20 UTC
abbrev noon : Time
noon = (62_135_596_800 + 1_700_000_000) * second

abbrev week : ℕ
week = 604_800 * second

abbrev alice_key : Text
alice_key = text "0123456789abcdef0123456789abcdef0123456789abcdef0123456789abcdef"

abbrev empty : Tracker
empty = record (blank false week) {
  revision = 1;
  core_revision = 1;
  tracking_since = noon;
  adjustments_tracking_since = noon;
}

empty-IsValid : IsValid empty
unfolding sort_by keys
empty-IsValid = record {
  parts = record { accounts = tt; adjustments = tt; candidates = tt; unique = tt };
  order = record { keyed = tt; sorted = tt; counted = refl; bounded = omega arith; listing = refl };
  counting = omega arith;
  since = omega arith;
  adjustments_since = omega arith;
}

abbrev with_alice : Tracker
with_alice = (ensure_account alice_key empty).0

load_files_roundtrip_example :
    (d : Tracker) × (load_files noon
        (found (disk_state with_alice))
        (found (adjustment_disk_state with_alice))
        (blank false week)
      ≡ ok (d, false, false))
    × ((key : Text)
        → (lookup key d.accounts ≡ lookup key with_alice.accounts)
          × (adjustments_of key d.adjustments ≡ (
              if has key with_alice.accounts
              then adjustments_of key with_alice.adjustments
              else [])))
    × (d.order ≡ with_alice.order)
    × (d.revision ≡ with_alice.revision)
    × (d.core_revision ≡ with_alice.revision)
    × (d.tracking_since ≡ with_alice.tracking_since)
    × (d.adjustments_tracking_since ≡ with_alice.adjustments_tracking_since)
load_files_roundtrip_example =
    load_files_roundtrip noon with_alice (blank false week)
      (ensure_account-IsValid alice_key empty empty-IsValid)
