-- ===== src/Activity/Tracker/Invariant.antt =====
-- What holds of a tracker between two calls, and that `Apply` keeps it.
use unibe_clan.Base.{ℕ, ◌<◌, ◌≡◌, ◌≢◌, ◌⊎◌, inl, inr, none, some, [], arith, All, Option-cases}
use unibe_clan.Base.Keys.{Text, nat_eq, text_eq}
use unibe_clan.Base.Map.{lookup, All-lookup}
use unibe_clan.Base.Time.{Time}
use unibe_clan.Activity.Chats.{key_eq}
use unibe_clan.Activity.Event.{Event, validate, ActivityError, untrusted_peer}
use unibe_clan.Activity.Tracker.{Tracker, accept, apply}
use unibe_clan.Activity.Tracker.Valid.{ChatsAreValid, prune-ChatsAreValid}
use unibe_clan.Activity.Tracker.Actions.{apply_action-ChatsAreValid}

-- The tracker between two calls: its chats are valid, its expiry is positive and no trusted user
-- has the empty name.
pub record IsValid (t : Tracker) : Type 0 where
  pub chats : ChatsAreValid t.chats
  pub positive : 0 < t.expires_after
  pub users : All (λ e. e.1 ≢ []) t.by_uid

pub accept-IsValid :
    (username : Text) (event : Event) (now : Time) (t : Tracker)
    → now ≢ 0
    → username ≢ []
    → IsValid t
    → IsValid (accept username event now t)
unfolding accept
accept-IsValid username event now t nonzero named v = record {
  chats =
      apply_action-ChatsAreValid event.action event.turn_id _ now _ nonzero named
        (prune-ChatsAreValid t.expires_after now t.chats v.chats);
  positive = v.positive;
  users = v.users;
}

-- The three ways in which `Apply` returns.
pub apply_cases :
    (uid : ℕ) (event : Event) (now : Time) (t : Tracker)
    → ((lookup uid t.by_uid ≡ none) × (apply uid event now t ≡ (t, some untrusted_peer)))
      ⊎ ((username : Text) × (lookup uid t.by_uid ≡ some username)
          × (((e : ActivityError) × (validate event ≡ some e)
                × (apply uid event now t ≡ (t, some e)))
              ⊎ ((validate event ≡ none)
                  × (apply uid event now t ≡ (accept username event now t, none)))))
unfolding apply
apply_cases uid event now t = elim (Option-cases (lookup uid t.by_uid)) [
  | inl unknown_peer ↦ inl (unknown_peer, ground arith)
  | inr (username, known) ↦ elim (Option-cases (validate event)) [
    | inl fine ↦ inr (username, known, inr (fine, ground arith))
    | inr (e, bad) ↦ inr (username, known, inl (e, bad, ground arith))
  ]
]

-- `Apply` keeps the invariant, whatever the sender and the event, at any time but the zero time: at
-- most 64 chats of a user and 2048 in all, 32 running turns of a chat, no key or turn twice, each
-- chat under its own key, and the running flag set exactly while a lease is held.
pub apply-IsValid :
    (uid : ℕ) (event : Event) (now : Time) (t : Tracker)
    → now ≢ 0
    → IsValid t
    → IsValid (apply uid event now t).0
apply-IsValid uid event now t nonzero v = elim (apply_cases uid event now t) [
  | inl (_, done) ↦ rw done v
  | inr (username, known, r) ↦ elim r [
    | inl (e, bad, done) ↦ rw done v
    | inr (fine, done) ↦ rw done (
        accept-IsValid username event now t nonzero
          (All-lookup (λ e. e.1 ≢ []) uid username t.by_uid v.users known) v)
  ]
]
