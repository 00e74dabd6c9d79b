-- ===== src/Activity/Tracker/Reach.antt =====
-- The tracker over its whole life: made by `New`, then called in any order.
use unibe_clan.Base.{
  ℕ, ◌≡◌, ◌≢◌, inl, inr, Bool, true, none, some, List, [], ◌∷◌, arith, All, subst, sym,
}
use unibe_clan.Activity.Leases.{prune}
use unibe_clan.Activity.Chats.{count_user}
use unibe_clan.Base.Keys.{Text, nat_eq, text_eq}
use unibe_clan.Base.Int.{ℤ}
use unibe_clan.Base.Map.{lookup, insert, All-insert, lookup-insert}
use unibe_clan.Base.Result.{ok, Result-cases}
use unibe_clan.Base.Time.{Time}
use unibe_clan.Activity.Event.{Event, valid_username}
use unibe_clan.Activity.Event.Ids.{valid_username_iff}
use unibe_clan.Activity.Tracker.{
  Identity, Tracker, add_identities, new, apply, snapshot_at, for_username, lookup_chat,
}
use unibe_clan.Activity.Tracker.Invariant.{IsValid, apply-IsValid}
use unibe_clan.Activity.Tracker.Valid.{ChatsAreValid, prune-ChatsAreValid}

-- What the loop of `New` has bound.
record Binds (is : List Identity) (by_uid out : List (ℕ × Text)) : Type 0 where
  named : All (λ e. e.1 ≢ []) out
  keeps : (uid : ℕ) (u : Text) → lookup uid by_uid ≡ some u → lookup uid out ≡ some u
  binds : All (λ i. lookup i.uid out ≡ some (i.username)) is

add_identities-Binds :
    (is : List Identity) (seen : List (Text × Bool)) (by_uid out : List (ℕ × Text))
    → All (λ e. e.1 ≢ []) by_uid
    → add_identities is seen by_uid ≡ ok out
    → Binds is by_uid out
unfolding add_identities
add_identities-Binds [] seen by_uid out h e = record {
  named = subst (All (λ e. e.1 ≢ [])) same h;
  keeps = λ uid u hit. ground arith;
  binds = tt;
}
  where
    same : by_uid ≡ out
    same = ground arith
add_identities-Binds (i ∷ is) seen by_uid out h e =
    let fine : valid_username i.username ≡ true = ground arith in
    let new_uid : lookup i.uid by_uid ≡ none = ground arith in
    let by_uid' = insert i.uid i.username by_uid in
    let rest =
      add_identities-Binds is (insert i.username true seen) by_uid' out
        (All-insert (λ e. e.1 ≢ []) i.uid i.username by_uid
          ((valid_username_iff i.username).0 fine).0 h)
        (ground arith) in
    record {
      named = rest.named;
      keeps =
          λ uid u hit. rest.keeps uid u (ground (arith, lookup-insert i.uid uid i.username by_uid));
      binds = (
        rest.keeps i.uid i.username (ground (arith, lookup-insert i.uid i.uid i.username by_uid)),
        rest.binds,
      );
    }

no_chats : ChatsAreValid []
unfolding count_user
no_chats = record { unique = tt; each = tt; total = omega arith; per_user = λ u. omega arith }

-- A tracker that `New` makes is valid and tracks no chat, and it trusts each of the given users
-- under the given UID.
pub new-IsValid :
    (identities : List Identity) (expires_after : ℤ) (t : Tracker)
    → new identities expires_after ≡ ok t
    → IsValid t × (t.chats ≡ []) × All (λ i. lookup i.uid t.by_uid ≡ some (i.username)) identities
unfolding new
new-IsValid identities expires_after t h = elim (Result-cases (add_identities identities [] [])) [
  | inl (e, failed) ↦ absurd (ground arith)
  | inr (out, bound) ↦
      let b = add_identities-Binds identities [] [] out tt bound in
      let users : t.by_uid ≡ out = ground arith in
      let none_yet : t.chats ≡ [] = ground arith in
      (
        record {
          chats = subst ChatsAreValid (sym none_yet) no_chats;
          positive = ground arith;
          users = subst (All (λ e. e.1 ≢ [])) (sym users) (b.named);
        },
        none_yet,
        subst (λ m. All (λ i. lookup i.uid m ≡ some (i.username)) identities) (sym users) (b.binds),
      )
]

-- One call of a tracker by a client or by the dashboard, with the clock's reading.
pub data Call (t : Tracker) : Tracker → Type 0 where
  applies : (uid : ℕ) (event : Event) (now : Time) → now ≢ 0 → Call t (apply uid event now t).0
  snapshots : (now : Time) → Call t (snapshot_at now t).0
  reads_user : (username : Text) (now : Time) → Call t (for_username username now t).0
  looks_up :
      (username session_id : Text) (now : Time) → Call t (lookup_chat username session_id now t).0

pub data Reaches (t : Tracker) : Tracker → Type 0 where
  here : Reaches t t
  then : {u w : Tracker} → Reaches t u → Call u w → Reaches t w

pruned-IsValid :
    (now : Time) (t : Tracker)
    → IsValid t
    → IsValid (record t { chats = (prune t.expires_after now t.chats).0 })
pruned-IsValid now t v = record {
  chats = prune-ChatsAreValid t.expires_after now t.chats v.chats;
  positive = v.positive;
  users = v.users;
}

Call-IsValid : {t u : Tracker} → Call t u → IsValid t → IsValid u
unfolding snapshot_at for_username lookup_chat
Call-IsValid {t} (applies uid event now nonzero) v = apply-IsValid uid event now t nonzero v
Call-IsValid {t} (snapshots now) v = pruned-IsValid now t v
Call-IsValid {t} (reads_user username now) v = pruned-IsValid now t v
Call-IsValid {t} (looks_up username session_id now) v = pruned-IsValid now t v

Reaches-IsValid : {t u : Tracker} → Reaches t u → IsValid t → IsValid u
Reaches-IsValid here v = v
Reaches-IsValid (then r c) v = Call-IsValid c (Reaches-IsValid r v)

-- Every tracker that `New` made is valid after any calls, in any order and with any clock readings
-- but the zero time: the bounds on its memory and the meaning of its flags always hold.
pub new-Reaches-IsValid :
    (identities : List Identity) (expires_after : ℤ) (t u : Tracker)
    → new identities expires_after ≡ ok t
    → Reaches t u
    → IsValid u
new-Reaches-IsValid identities expires_after t u h r =
    Reaches-IsValid r (new-IsValid identities expires_after t h).0
