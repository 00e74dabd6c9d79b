-- ===== src/Hub/Start.antt =====
-- internal/hub/hub.go: `New`.
use unibe_clan.Base.{Bool, true, not, ◌&&◌, Option, none, some, List, [], ◌∷◌, ◌++◌, if◌then◌else◌}
use unibe_clan.Base.Keys.{Text, nat_eq, text_eq, text_lt}
use unibe_clan.Base.Int.{ℤ, pos, pos_part, leb_ℤ}
use unibe_clan.Base.Map.{lookup, insert}
use unibe_clan.Base.Result.{Result, ok, err}
use unibe_clan.Base.Sort.{sort_by}
use unibe_clan.Base.Unicode.{trim_space}
use unibe_clan.Model.{Hashing, account_key}
use unibe_clan.Hub.Entry.{Identity, is_present, validate_identity, is_consumer}
use unibe_clan.Hub.Table.{
  Hub, NewError, stale_after_not_positive, invalid_identity, duplicate_username, duplicate_uid,
  duplicate_account, new_entry, empty_hub,
}

abbrev pub sort_order : Result NewError Hub → Result NewError Hub
sort_order (ok h) = ok (record h { order = sort_by text_lt h.order })
sort_order (err e) = err e

module _ (hashing : Hashing) where
  -- The checks of `New` on one identity.
  unfoldable pub identity_error : Identity → List (Text × Bool) → Hub → Option NewError
  identity_error given seen h =
      let key = account_key hashing (hashing.to_lower (trim_space given.expected_email)) in
      if not (validate_identity given)
      then some invalid_identity
      else if is_present (lookup given.username seen)
      then some duplicate_username
      else if is_present (lookup given.uid h.by_uid)
      then some duplicate_uid
      else if not (is_consumer given) && is_present (lookup key h.expected_anchors)
      then some duplicate_account
      else none

  -- The writes of `New` for an identity that passes them. The email of a consumer is empty.
  unfoldable pub add_identity : Identity → Hub → Hub
  add_identity given h =
      let email = hashing.to_lower (trim_space given.expected_email) in
      let key = account_key hashing email in
      record h {
        by_uid = insert given.uid given.username h.by_uid;
        order = h.order ++ (given.username ∷ []);
        entries =
            insert given.username
              (new_entry (record given {
                expected_email = if is_consumer given then given.expected_email else email;
              }))
              h.entries;
        expected_anchors =
            if is_consumer given
            then h.expected_anchors
            else insert key given.username h.expected_anchors;
        expected_emails =
            if is_consumer given then h.expected_emails else insert key email h.expected_emails;
      }

  -- The loop of `New`.
  unfoldable pub add_identities : List Identity → List (Text × Bool) → Hub → Result NewError Hub
  add_identities [] seen h = ok h
  add_identities (given ∷ is) seen h =
      let rest = add_identities is (insert given.username true seen) (add_identity given h) in
      elim (identity_error given seen h) [ some e ↦ err e | none ↦ rest ]

  unfoldable pub new : List Identity → ℤ → Result NewError Hub
  unfolding add_identities
  new identities stale_after =
      if leb_ℤ stale_after (pos 0)
      then err stale_after_not_positive
      else sort_order (add_identities identities [] (empty_hub (pos_part stale_after)))
