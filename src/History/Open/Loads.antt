-- ===== src/History/Open/Loads.antt =====
-- What a tracker has written, `Open` loads as what it was.
use unibe_clan.Base.{
  ◌≡◌, refl, sym, ap, subst, ◌∙◌, inl, inr, true, false, List, [], ◌∷◌, map, arith, All, All-map,
  if◌then◌else◌, Option-cases,
}
use mathlib.Core.List.{Permᴰ}
use mathlib.Core.List.Permᴰ
use unibe_clan.Base.Keys.{Text, text_beq_iff, text_eq, text_lt}
use unibe_clan.Base.Map.{has, each-has, lookup, insert, lookup-insert, Unique, insert-Unique}
use unibe_clan.Base.Result.{ok}
use unibe_clan.Base.Sort.{sort_by, sort_by-perm, sort_by_of_perm, Distinct, Distinct-perm}
use unibe_clan.Base.Time.{Time}
use unibe_clan.History.Adjustments.{StoredAdjustment}
use unibe_clan.History.Events.{DiskAccount}
use unibe_clan.History.Tracker.{
  Tracker, account_of, adjustments_of, keys, disk_state, adjustment_disk_state, ordered_accounts,
  ordered_adjustments,
}
use unibe_clan.History.Tracker.Valid.{IsValid, text_lt-StrictWeak}
use unibe_clan.History.Tracker.Persist.{disk_states_valid}
use unibe_clan.History.Open.{
  found, take_history, load_history, take_adjustments, fill_adjustments, take_header,
  load_adjustments, load_files,
}
use unibe_clan.History.Tracker.Keys.{keys-Distinct}
use unibe_clan.History.Open.Written.{
  listed, lookup-ordered_accounts, lookup-ordered_adjustments, listed-perm, listed-keys,
  keys-ordered_accounts,
}

-- A sidecar whose accounts the history knows adds none.
take_known :
    (stored : List (Text × List StoredAdjustment)) (t : Tracker)
    → All (λ e. has e.0 t.accounts ≡ true) stored
    → take_adjustments stored t
      ≡ (record t { adjustments = (take_adjustments stored t).0.adjustments }, false)
unfolding take_adjustments
take_known [] t known = refl
take_known ((k, s) ∷ stored) t known = elim (Option-cases (lookup k t.accounts)) [
  | inl absent ↦ ground (arith, absent, known.0)
  | inr (a, present) ↦
      rw (present, take_adjustments)
        (take_known stored (record t { adjustments = insert k s t.adjustments }) known.1)
]

lookup-take_adjustments :
    (key : Text) (stored : List (Text × List StoredAdjustment)) (t : Tracker)
    → Unique stored
    → All (λ e. has e.0 t.accounts ≡ true) stored
    → lookup key (take_adjustments stored t).0.adjustments
      ≡ (if has key stored then lookup key stored else lookup key t.adjustments)
unfolding take_adjustments lookup
lookup-take_adjustments key [] t u known = refl
lookup-take_adjustments key ((k, s) ∷ stored) t u known =
    elim (Option-cases (lookup k t.accounts)) [
      | inl absent ↦ ground (arith, absent, known.0)
      | inr (a, present) ↦ ground (
        arith,
        present,
        u.0,
        text_beq_iff k key,
        lookup-insert k key s t.adjustments,
        lookup-take_adjustments key stored (record t { adjustments = insert k s t.adjustments }) u.1
            known.1,
      )
    ]

-- A sidecar that has every account lacks none.
fill_known :
    (stored : List (Text × List StoredAdjustment)) (accounts : List (Text × DiskAccount))
    (t : Tracker)
    → All (λ e. has e.0 stored ≡ true) accounts
    → fill_adjustments stored accounts t ≡ (t, false)
unfolding fill_adjustments
fill_known stored [] t known = refl
fill_known stored ((k, a) ∷ accounts) t known =
    ground (arith, known.0, fill_known stored accounts t known.1)

no_adjustments_yet :
    (key : Text) (m : List (Text × DiskAccount)) → adjustments_of key (map (λ e. (e.0, [])) m) ≡ []
unfolding adjustments_of lookup
no_adjustments_yet key [] = refl
no_adjustments_yet key ((k, a) ∷ m) = ground (arith, no_adjustments_yet key m)

module _ (t : Tracker) (v : IsValid t) where
  listing : t.order ≡ sort_by text_lt (keys t.accounts)
  listing = v.order.listing

  listed-order : (key : Text) → listed key t.order ≡ has key t.accounts
  listed-order key =
      rw listing
        (listed-perm (sort_by-perm text_lt (keys t.accounts)) key ∙ listed-keys key t.accounts)

  order-Distinct : Distinct text_lt t.order
  order-Distinct = rw listing (
      Distinct-perm text_lt (Permᴰ.symm (sort_by-perm text_lt (keys t.accounts)))
        (keys-Distinct t.accounts v.parts.unique))

  loaded-accounts :
      (key : Text) → lookup key (ordered_accounts t.order t.accounts) ≡ lookup key t.accounts
  unfolding account_of
  loaded-accounts key =
      ground (arith, lookup-ordered_accounts key t.order t.accounts, listed-order key)

  loaded-order : sort_by text_lt (keys (ordered_accounts t.order t.accounts)) ≡ t.order
  loaded-order =
      sort_by_of_perm text_lt text_lt-StrictWeak
        (keys-ordered_accounts t.order t.accounts order-Distinct)
        (Distinct-perm text_lt
          (Permᴰ.symm (keys-ordered_accounts t.order t.accounts order-Distinct)) order-Distinct)
      ∙ sort_by_of_perm text_lt text_lt-StrictWeak
          (subst (λ o. Permᴰ o (keys t.accounts)) (sym listing)
            (sort_by-perm text_lt (keys t.accounts)))
          order-Distinct
      ∙ sym listing

  sidecar-known :
      All
        (λ e. has e.0 (ordered_accounts t.order t.accounts) ≡ true)
        (ordered_adjustments t.order t.adjustments)
  sidecar-known =
      All-map _ _
        (λ e known. ground (
          arith,
          known,
          lookup-ordered_adjustments e.0 t.order t.adjustments,
          lookup-ordered_accounts e.0 t.order t.accounts,
        ))
        (ordered_adjustments t.order t.adjustments) (each-has _)

  accounts-known :
      All
        (λ e. has e.0 (ordered_adjustments t.order t.adjustments) ≡ true)
        (ordered_accounts t.order t.accounts)
  accounts-known =
      All-map _ _
        (λ e known. ground (
          arith,
          known,
          lookup-ordered_adjustments e.0 t.order t.adjustments,
          lookup-ordered_accounts e.0 t.order t.accounts,
        ))
        (ordered_accounts t.order t.accounts) (each-has _)

  order-sorted : sort_by text_lt t.order ≡ t.order
  order-sorted =
      sort_by_of_perm text_lt text_lt-StrictWeak
        (subst (λ o. Permᴰ o (keys t.accounts)) (sym listing)
          (sort_by-perm text_lt (keys t.accounts)))
        order-Distinct
      ∙ sym listing

ordered_adjustments-Unique :
    (ks : List Text) (m : List (Text × List StoredAdjustment)) → Unique (ordered_adjustments ks m)
unfolding ordered_adjustments
ordered_adjustments-Unique [] m = tt
ordered_adjustments-Unique (k ∷ ks) m =
    insert-Unique k (adjustments_of k m) (ordered_adjustments ks m)
      (ordered_adjustments-Unique ks m)

-- What the two files of a tracker make of a tracker that has not loaded yet.
abbrev headed : Tracker → Tracker → Tracker
headed t b = take_header (adjustment_disk_state t) (take_history (disk_state t) b)

abbrev reloaded : Tracker → Tracker → Tracker
reloaded t b = record (headed t b) {
  adjustments =
      (take_adjustments (ordered_adjustments t.order t.adjustments) (headed t b)).0.adjustments;
  order = sort_by text_lt (sort_by text_lt (keys (ordered_accounts t.order t.accounts)));
}

load_adjustments-reloaded :
    (now : Time) (t b : Tracker)
    → IsValid t
    → load_adjustments now (found (adjustment_disk_state t)) false (take_history (disk_state t) b)
      ≡ ok (reloaded t b, false, false)
unfolding load_adjustments
load_adjustments-reloaded now t b v =
    rw
      (
        (disk_states_valid t v).1,
        take_known (ordered_adjustments t.order t.adjustments) (headed t b) (sidecar-known t v),
        fill_known (ordered_adjustments t.order t.adjustments) (ordered_accounts t.order t.accounts)
            (record (headed t b) {
              adjustments =
                  (take_adjustments (ordered_adjustments t.order t.adjustments)
                    (headed t b)).0.adjustments;
            })
            (accounts-known t v),
      )
      refl

load_files-reloaded :
    (now : Time) (t b : Tracker)
    → IsValid t
    → load_files now (found (disk_state t)) (found (adjustment_disk_state t)) b
      ≡ ok (reloaded t b, false, false)
unfolding load_files load_history
load_files-reloaded now t b v =
    rw ((disk_states_valid t v).0, load_files) (load_adjustments-reloaded now t b v)

reloaded-adjustments :
    (t b : Tracker) (key : Text)
    → IsValid t
    → adjustments_of key (reloaded t b).adjustments
      ≡ (if has key t.accounts then adjustments_of key t.adjustments else [])
unfolding adjustments_of
reloaded-adjustments t b key v = ground (
  arith,
  lookup-take_adjustments key (ordered_adjustments t.order t.adjustments) (headed t b)
      (ordered_adjustments-Unique t.order t.adjustments) (sidecar-known t v),
  lookup-ordered_adjustments key t.order t.adjustments,
  listed-order t v key,
  no_adjustments_yet key (ordered_accounts t.order t.accounts),
)

-- From the two states that a valid tracker writes, the loading of the files makes a tracker with
-- the same accounts, the same adjustments of each of them and none of others, the same list of
-- keys, the same revision and the same times; and neither the history nor the adjustments are to be
-- written for it.
pub load_files_roundtrip :
    (now : Time) (t b : Tracker)
    → IsValid t
    → (d : Tracker) × (load_files now (found (disk_state t)) (found (adjustment_disk_state t)) b
        ≡ ok (d, false, false))
      × ((key : Text)
          → (lookup key d.accounts ≡ lookup key t.accounts)
            × (adjustments_of key d.adjustments
                ≡ (if has key t.accounts then adjustments_of key t.adjustments else [])))
      × (d.order ≡ t.order)
      × (d.revision ≡ t.revision)
      × (d.core_revision ≡ t.revision)
      × (d.tracking_since ≡ t.tracking_since)
      × (d.adjustments_tracking_since ≡ t.adjustments_tracking_since)
load_files_roundtrip now t b v = (
  reloaded t b,
  load_files-reloaded now t b v,
  λ key. (loaded-accounts t v key, reloaded-adjustments t b key v),
  ap (sort_by text_lt) (loaded-order t v) ∙ order-sorted t v,
  ground arith,
  refl,
  refl,
  refl,
)
