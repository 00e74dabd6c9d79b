-- ===== src/Hub/State/Errors.antt =====
-- What a snapshot does that is refused or delayed, and what one does that is accepted.
use unibe_clan.Base.{
  ℕ, ◌≡◌, ◌↔◌, ◌⊎◌, inl, inr, true, false, none, some, arith, Bool-cases, Option-cases,
}
use unibe_clan.Base.Keys.{Text, nat_eq, text_beq, text_beq_iff, text_eq}
use unibe_clan.Base.Map.{lookup}
use unibe_clan.Model.{Snapshot, Hashing}
use unibe_clan.Model.Validate.{validate_snapshot}
use unibe_clan.Hub.Entry.{Entry}
use unibe_clan.Hub.Table.{Hub}
use unibe_clan.Hub.State.{World, accept, is_delayed, apply}

module _ (hashing : Hashing) (w : World) (uid : ℕ) (s : Snapshot) (h : Hub) where
  -- The call reaches the entry of the user, and the snapshot is newer than the entry's.
  pub record Accepted : Type 0 where
    pub username : Text
    pub entry : Entry
    pub trusted : lookup uid h.by_uid ≡ some username
    pub own : s.username ≡ username
    pub valid : validate_snapshot w.checked_at s ≡ true
    pub found : lookup username h.entries ≡ some entry
    pub timely : is_delayed s entry ≡ false
    pub accepted : apply hashing w uid s h ≡ (accept hashing w username entry s h, none)

  pub apply_cases : ((apply hashing w uid s h).0 ≡ h) ⊎ Accepted
  unfolding apply
  apply_cases = elim (Option-cases (lookup uid h.by_uid)) [
    | inl unknown ↦ inl (ground (arith, unknown))
    | inr (username, trusted) ↦ elim (Bool-cases (text_beq s.username username)) [
      | inr other ↦ inl (ground (arith, trusted, other))
      | inl own ↦ elim (Bool-cases (validate_snapshot w.checked_at s)) [
        | inr bad ↦ inl (ground (arith, trusted, own, bad))
        | inl valid ↦ elim (Option-cases (lookup username h.entries)) [
          | inl missing ↦ inl (ground (arith, trusted, own, valid, missing))
          | inr (entry, found) ↦ elim (Bool-cases (is_delayed s entry)) [
            | inl late ↦ inl (ground (arith, trusted, own, valid, found, late))
            | inr timely ↦ inr (record {
              username = username;
              entry = entry;
              trusted = trusted;
              own = ground (arith, own, text_beq_iff s.username username);
              valid = valid;
              found = found;
              timely = timely;
              accepted = ground (arith, trusted, own, valid, found, timely);
            })
          ]
        ]
      ]
    ]
  ]

  -- Apply answers no error exactly if the uid is trusted, the snapshot is of its user, and it is
  -- valid; where it answers one, the hub is what it was.
  pub apply_error :
      (((apply hashing w uid s h).1 ≡ none)
        ↔ ((lookup uid h.by_uid ≡ some s.username) × (validate_snapshot w.checked_at s ≡ true)))
      × (((apply hashing w uid s h).1 ≡ none) ⊎ ((apply hashing w uid s h).0 ≡ h))
  unfolding apply
  apply_error = elim (Option-cases (lookup uid h.by_uid)) [
    | inl unknown ↦ ground (arith, unknown)
    | inr (username, trusted) ↦ elim (Bool-cases (text_beq s.username username)) [
      | inr other ↦ ground (arith, trusted, other, text_beq_iff s.username username)
      | inl own ↦ elim (Bool-cases (validate_snapshot w.checked_at s)) [
        | inr bad ↦ ground (arith, trusted, own, bad)
        | inl valid ↦ ground (arith, trusted, own, valid, text_beq_iff s.username username)
      ]
    ]
  ]
