-- ===== src/Hub/Intake/Kept.antt =====
-- internal/hub/hub.go: a snapshot that is taken keeps what holds of the user's entry.
use unibe_clan.Base.{
  ℕ, ◌≡◌, ◌⊎◌, refl, inl, inr, Bool, true, false, Option, some, List, [], arith, if◌then◌else◌,
  Option-cases,
}
use unibe_clan.Base.Int.{ℤ}
use unibe_clan.Base.Keys.{Text}
use unibe_clan.Base.Time.{Time}
use unibe_clan.Model.{
  ok, signed_out, api_key, unavailable, unknown, RecentThread, Snapshot, Hashing,
}
use unibe_clan.Hub.Entry.{
  ActivityRef, Entry, is_consumer, is_ok, snapshot_account_key, last_account_key,
}
use unibe_clan.Hub.Intake.{
  note_version, read_inventory, miss_inventory, take_inventory, strip, forget_account,
  note_lifetime, note_recent, new_account, changes_consumer, take_good, take_signed_out, take_state,
  take_snapshot,
}
use unibe_clan.Hub.Intake.Hidden.{LatestIsKept, EntryIsValid, take_inventory-RuntimeIsHidden}

module _ (hashing : Hashing) where
  -- The fields that the well-formedness of an entry does not read.
  free_fields-EntryIsValid :
      (e : Entry) (seen : Time) (good_at : Option Time) (tokens : Option ℤ) (tokens_at : Time)
      (version : Text) (version_at : Time) (recent : List (Text × RecentThread)) (n : ℕ)
      → EntryIsValid hashing e
      → EntryIsValid hashing (record e {
        last_seen_at = seen;
        last_good_at = good_at;
        lifetime_tokens = tokens;
        lifetime_at = tokens_at;
        codex_version = version;
        codex_version_at = version_at;
        recent_threads = recent;
        account_version = n;
      })
  free_fields-EntryIsValid e seen good_at tokens tokens_at version version_at recent n v = record {
    runtime = record {
      hidden = v.runtime.hidden;
      awaiting = v.runtime.awaiting;
      anchor = v.runtime.anchor;
    };
    account = record {
      stripped = v.account.stripped;
      good = v.account.good;
      member = v.account.member;
    };
  }

  if-EntryIsValid :
      (test : Bool) (d e : Entry)
      → EntryIsValid hashing d
      → EntryIsValid hashing e
      → EntryIsValid hashing (if test then d else e)
  if-EntryIsValid true d e u v = u
  if-EntryIsValid false d e u v = v

  note_version-EntryIsValid :
      (s : Snapshot) (e : Entry) → EntryIsValid hashing e → EntryIsValid hashing (note_version s e)
  unfolding note_version
  note_version-EntryIsValid s e v = elim (Option-cases s.codex_version_observed_at) [
    | inl absent ↦ rw (absent, note_version) v
    | inr (at, present) ↦
        rw (present, note_version)
          (if-EntryIsValid _ _ _ (free_fields-EntryIsValid e _ _ _ _ _ _ _ _ v) v)
  ]

  forget_account-EntryIsValid :
      (e : Entry) → EntryIsValid hashing e → EntryIsValid hashing (forget_account e)
  forget_account-EntryIsValid e v = free_fields-EntryIsValid e _ _ _ _ _ _ _ _ v

  note_recent-EntryIsValid :
      (s : Snapshot) (e : Entry) → EntryIsValid hashing e → EntryIsValid hashing (note_recent s e)
  unfolding note_recent
  note_recent-EntryIsValid s e v =
      if-EntryIsValid _ _ _ (free_fields-EntryIsValid e _ _ _ _ _ _ _ _ v) v

  note_lifetime-EntryIsValid :
      (s : Snapshot) (e : Entry) → EntryIsValid hashing e → EntryIsValid hashing (note_lifetime s e)
  unfolding note_lifetime
  note_lifetime-EntryIsValid s e v = elim (Option-cases s.lifetime_tokens) [
    | inl absent ↦ rw (absent, note_lifetime) v
    | inr (tokens, present) ↦
        rw (present, note_lifetime)
          (if-EntryIsValid _ _ _ (free_fields-EntryIsValid e _ _ _ _ _ _ _ _ v) v)
  ]

  -- The membership and the last good snapshot of a consumer change together.
  take_member :
      (s : Snapshot) (e : Entry)
      → s.state ≡ ok
      → ((e.membership ≡ [])
          ⊎ ((is_consumer e.identity ≡ true)
              × (last_account_key hashing e.last_good ≡ e.membership)))
      → (((if is_consumer e.identity then new_account hashing s else e.membership) ≡ [])
          ⊎ ((is_consumer e.identity ≡ true)
              × (snapshot_account_key hashing s
                  ≡ (if is_consumer e.identity then new_account hashing s else e.membership))))
  unfolding new_account is_ok
  take_member s e good m = ground (arith, good, m)

  store_good-EntryIsValid :
      (now : Time) (s : Snapshot) (e : Entry)
      → s.state ≡ ok
      → s.runtime_threads ≡ []
      → EntryIsValid hashing e
      → EntryIsValid hashing (record e {
        last_good = some s;
        last_good_at = some now;
        membership = if is_consumer e.identity then new_account hashing s else e.membership;
      })
  unfolding last_account_key
  store_good-EntryIsValid now s e good bare v = record {
    runtime = record {
      hidden = v.runtime.hidden;
      awaiting = v.runtime.awaiting;
      anchor = v.runtime.anchor;
    };
    account = record {
      stripped = v.account.stripped;
      good = λ t same. record {
        state = ground (arith, good, same);
        threads = ground (arith, bare, same);
      };
      member = take_member s e good v.account.member;
    };
  }

  take_good-EntryIsValid :
      (prior : Text) (now : Time) (s : Snapshot) (e : Entry)
      → s.state ≡ ok
      → s.runtime_threads ≡ []
      → EntryIsValid hashing e
      → EntryIsValid hashing (take_good hashing prior now s e)
  unfolding take_good
  take_good-EntryIsValid prior now s e good bare v = note_recent-EntryIsValid s _ (
      note_lifetime-EntryIsValid s _ (
        store_good-EntryIsValid now s _ good bare
          (if-EntryIsValid _ _ _ (forget_account-EntryIsValid e v) v)))

  -- A consumer that is signed out is a member of no account; an anchor never is.
  leave_member :
      (e : Entry)
      → ((e.membership ≡ [])
          ⊎ ((is_consumer e.identity ≡ true)
              × (last_account_key hashing e.last_good ≡ e.membership)))
      → (if is_consumer e.identity then [] else e.membership) ≡ []
  leave_member e m = ground (arith, m)

  take_signed_out-EntryIsValid :
      (e : Entry) → EntryIsValid hashing e → EntryIsValid hashing (take_signed_out hashing e)
  unfolding take_signed_out
  take_signed_out-EntryIsValid e v = record {
    runtime = record {
      hidden = v.runtime.hidden;
      awaiting = v.runtime.awaiting;
      anchor = v.runtime.anchor;
    };
    account = record {
      stripped = v.account.stripped;
      good = v.account.good;
      member = inl (leave_member e v.account.member);
    };
  }

  take_inventory-account :
      (switch : Bool) (hooks : List ActivityRef) (now : Time) (s : Snapshot) (e : Entry)
      → ((take_inventory switch hooks now s e).identity ≡ e.identity)
        × ((take_inventory switch hooks now s e).last_good ≡ e.last_good)
        × ((take_inventory switch hooks now s e).membership ≡ e.membership)
  unfolding take_inventory read_inventory miss_inventory
  take_inventory-account switch hooks now s e = ground arith

  -- The entry as `take_snapshot` has it before the `switch`.
  seen-EntryIsValid :
      (hooks : List ActivityRef) (now : Time) (switch : Bool) (s : Snapshot) (e : Entry)
      → EntryIsValid hashing e
      → EntryIsValid hashing
          (record (take_inventory switch hooks now s e) { current = strip s; last_seen_at = now })
  seen-EntryIsValid hooks now switch s e v =
      let r = take_inventory-RuntimeIsHidden switch hooks now s e v.runtime in
      let kept = take_inventory-account switch hooks now s e in
      record {
        runtime = record { hidden = r.hidden; awaiting = r.awaiting; anchor = r.anchor };
        account = record {
          stripped = refl;
          good = λ t same. v.account.good t (ground (arith, kept, same));
          member = ground (arith, kept, v.account.member);
        };
      }

  take_state-EntryIsValid :
      (prior : Text) (now : Time) (s : Snapshot) (e : Entry)
      → s.runtime_threads ≡ []
      → EntryIsValid hashing e
      → EntryIsValid hashing (take_state hashing prior now s e)
  unfolding take_state
  take_state-EntryIsValid prior now s e bare v =
      elim (s.state)
          as (λ state.
            s.state ≡ state
            → EntryIsValid hashing (elim state [
              | ok ↦ take_good hashing prior now s e
              | signed_out ↦ take_signed_out hashing e
              | api_key ↦ take_signed_out hashing e
              | unavailable ↦ e
              | unknown _ ↦ e
            ])) [
              | ok ↦ λ good. take_good-EntryIsValid prior now s e good bare v
              | signed_out ↦ λ _. take_signed_out-EntryIsValid e v
              | api_key ↦ λ _. take_signed_out-EntryIsValid e v
              | unavailable ↦ λ _. v
              | unknown _ ↦ λ _. v
            ]
        refl

  -- A snapshot that is taken keeps the entry well-formed.
  pub take_snapshot-EntryIsValid :
      (hooks : List ActivityRef) (now : Time) (s : Snapshot) (e : Entry)
      → EntryIsValid hashing e
      → EntryIsValid hashing (take_snapshot hashing hooks now s e)
  unfolding take_snapshot
  take_snapshot-EntryIsValid hooks now s e v = take_state-EntryIsValid _ now (strip s) _ refl (
      seen-EntryIsValid hooks now (changes_consumer hashing s e) s (note_version s e)
        (note_version-EntryIsValid s e v))

  take_state-identity :
      (prior : Text) (now : Time) (s : Snapshot) (e : Entry)
      → (take_state hashing prior now s e).identity ≡ e.identity
  unfolding take_state take_good take_signed_out note_recent note_lifetime
  take_state-identity prior now s e = ground arith

  note_version-identity : (s : Snapshot) (e : Entry) → (note_version s e).identity ≡ e.identity
  unfolding note_version
  note_version-identity s e = ground arith

  pub take_snapshot-identity :
      (hooks : List ActivityRef) (now : Time) (s : Snapshot) (e : Entry)
      → (take_snapshot hashing hooks now s e).identity ≡ e.identity
  unfolding take_snapshot
  take_snapshot-identity hooks now s e = ground (
    arith,
    take_state-identity (last_account_key hashing e.last_good) now (strip s)
        (record (take_inventory (changes_consumer hashing s e) hooks now s (note_version s e)) {
          current = strip s;
          last_seen_at = now;
        }),
    take_inventory-account (changes_consumer hashing s e) hooks now s (note_version s e),
    note_version-identity s e,
  )

  take_state-current :
      (prior : Text) (now : Time) (s : Snapshot) (e : Entry)
      → (take_state hashing prior now s e).current ≡ e.current
  unfolding take_state take_good take_signed_out note_recent note_lifetime
  take_state-current prior now s e = ground arith

  pub take_snapshot-current :
      (hooks : List ActivityRef) (now : Time) (s : Snapshot) (e : Entry)
      → (take_snapshot hashing hooks now s e).current ≡ strip s
  unfolding take_snapshot
  take_snapshot-current hooks now s e =
      take_state-current (last_account_key hashing e.last_good) now (strip s) _

  take_state-LatestIsKept :
      (prior : Text) (now : Time) (s : Snapshot) (e : Entry)
      → e.current ≡ s
      → LatestIsKept (take_state hashing prior now s e)
  unfolding take_state take_good take_signed_out note_recent note_lifetime
  take_state-LatestIsKept prior now s e same good = ground (arith, same, good)

  pub take_snapshot-LatestIsKept :
      (hooks : List ActivityRef) (now : Time) (s : Snapshot) (e : Entry)
      → LatestIsKept (take_snapshot hashing hooks now s e)
  unfolding take_snapshot
  take_snapshot-LatestIsKept hooks now s e =
      take_state-LatestIsKept (last_account_key hashing e.last_good) now (strip s) _ refl
