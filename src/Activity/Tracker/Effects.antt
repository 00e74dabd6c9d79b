-- ===== src/Activity/Tracker/Effects.antt =====
-- What an accepted event does to the chats, and what it leaves alone.
use unibe_clan.Base.{
  ℕ, ◌<◌, ◌≡◌, ◌≢◌, ◌↔◌, refl, ◌∙◌, ◌⊎◌, inl, inr, true, none, some, [], arith, Option-cases,
  length,
}
use unibe_clan.Base.Keys.{Text, nat_eq, text_eq, text_beq_iff}
use unibe_clan.Base.Map.{lookup, replace, lookup-insert, lookup-replace, lookup-delete}
use unibe_clan.Base.Time.{Time}
use unibe_clan.Activity.Chats.{
  ChatKey, key_eq, key_beq_iff, TrackedChat, Chats, make_room, max_active_chats,
}
use unibe_clan.Activity.Chats.Room.{make_room-MadeRoom}
use unibe_clan.Activity.Leases.{mark_turn_running, prune}
use unibe_clan.Activity.Leases.Expiry.{Option_bind, survivor, lookup-prune, length-prune-le}
use unibe_clan.Activity.Event.{
  Action, session_start, start, refresh, end_turn, end_session, unknown, Event, ActivityError,
}
use unibe_clan.Activity.Event.Ids.{WellFormed, validate_iff}
use unibe_clan.Activity.Tracker.{
  Tracker, new_chat, ensure_chat, mark_running, apply_action, accept, apply,
}
use unibe_clan.Activity.Tracker.Invariant.{IsValid, apply_cases}
use unibe_clan.Activity.Tracker.Valid.{ChatsAreValid, prune-ChatsAreValid}

-- `Apply` returns nil exactly for a well-formed event of a trusted peer; and whatever error it
-- returns, the tracker is as it was.
pub apply_outcome :
    (uid : ℕ) (event : Event) (now : Time) (t : Tracker)
    → (((apply uid event now t).1 ≡ none) ↔ ((lookup uid t.by_uid ≢ none) × WellFormed event))
      × ((e : ActivityError) → (apply uid event now t).1 ≡ some e → (apply uid event now t).0 ≡ t)
apply_outcome uid event now t = elim (apply_cases uid event now t) [
  | inl (stranger, done) ↦ rw done ((λ h. cc, λ h. absurd (h.0 stranger)), λ e h. refl)
  | inr (username, known, r) ↦ elim r [
    | inl (e, bad, done) ↦
        rw done ((λ h. cc, λ h. ground (arith, (validate_iff event).1 h.1)), λ e' h. refl)
    | inr (fine, done) ↦
        rw done ((λ h. (ground arith, (validate_iff event).0 fine), λ h. refl), λ e h. cc)
  ]
]

module _ (key : ChatKey) (now : Time) (m : Chats) (v : ChatsAreValid m)
    (named : key.username ≢ []) where
  -- Below the global bound, `ensureChatLocked` leaves the chats of other users alone.
  ensure_chat_others :
      (k : ChatKey)
      → k.username ≢ key.username
      → length m < max_active_chats
      → lookup k (ensure_chat key now m).0 ≡ lookup k m
  unfolding ensure_chat
  ensure_chat_others k other h = elim (Option-cases (lookup key m)) [
    | inr (t, found) ↦ rw (found, ensure_chat)
    | inl absent ↦
        let made = make_room-MadeRoom key.username m v.unique named in
        rw (absent, ensure_chat)
          (ground (
            arith,
            lookup-insert key k (new_chat key now) (make_room key.username m),
            key_beq_iff key k,
            made.other_users h k other,
          ))
  ]

  written_others :
      (chat : TrackedChat) (k : ChatKey)
      → k.username ≢ key.username
      → length m < max_active_chats
      → lookup k (replace key chat (ensure_chat key now m).0) ≡ lookup k m
  written_others chat k other h = ground (
    arith,
    lookup-replace key k chat (ensure_chat key now m).0,
    key_beq_iff key k,
    ensure_chat_others k other h,
  )

  apply_action_others :
      (a : Action) (turn_id : Text) (k : ChatKey)
      → k.username ≢ key.username
      → length m < max_active_chats
      → lookup k (apply_action a turn_id key now m) ≡ lookup k m
  unfolding apply_action mark_running
  apply_action_others session_start turn_id k other h = written_others _ k other h
  apply_action_others start turn_id k other h = written_others _ k other h
  apply_action_others refresh turn_id k other h = written_others _ k other h
  apply_action_others end_turn turn_id k other h = written_others _ k other h
  apply_action_others end_session turn_id k other h =
      ground (arith, lookup-delete key k m, key_beq_iff key k)
  apply_action_others (unknown a) turn_id k other h = refl

-- While fewer than 2048 chats are tracked, an event of one user does to the chats of the others
-- only what the passing of time does: each of them is what pruning leaves of it.
pub accept-isolates :
    (username : Text) (event : Event) (now : Time) (t : Tracker)
    → IsValid t
    → username ≢ []
    → length t.chats < max_active_chats
    → (k : ChatKey) → k.username ≢ username
    → lookup k (accept username event now t).chats
      ≡ Option_bind (lookup k t.chats) (survivor t.expires_after now)
unfolding accept
accept-isolates username event now t v named room k other =
    apply_action_others key now pruned (prune-ChatsAreValid t.expires_after now t.chats v.chats)
      named event.action event.turn_id k other
      (omega (arith, length-prune-le t.expires_after now t.chats))
    ∙ lookup-prune t.expires_after now k t.chats v.chats.unique
  where
    key : ChatKey
    key = record { username = username; session_id = event.session_id }

    pruned : Chats
    pruned = (prune t.expires_after now t.chats).0

-- The chat of an event.
abbrev pub event_key : Text → Event → ChatKey
event_key username event = record { username = username; session_id = event.session_id }

-- What a start or a refresh leaves: the chat runs, was updated now, and its turn holds a lease of
-- its own from now on, or shares the lease of the turns beyond the bound.
pub record Runs (turn_id : Text) (now : Time) (chat : TrackedChat) : Type 0 where
  pub running : chat.view.running ≡ true
  pub updated : chat.view.updated_at ≡ now
  pub leased : (lookup turn_id chat.running_turns ≡ some now) ⊎ (chat.overflow_updated_at ≡ now)

mark_turn_running_leases :
    (chat : TrackedChat) (turn_id : Text) (now : Time)
    → let marked = mark_turn_running chat turn_id now in
      (lookup turn_id marked.running_turns ≡ some now) ⊎ (marked.overflow_updated_at ≡ now)
unfolding mark_turn_running
mark_turn_running_leases chat turn_id now =
    ground
      (arith, lookup-insert turn_id turn_id now chat.running_turns, text_beq_iff turn_id turn_id)

-- `ensureChatLocked` returns the chat that its map then holds: the eviction comes before it is added.
ensure_chat_stands :
    (key : ChatKey) (now : Time) (m : Chats)
    → lookup key (ensure_chat key now m).0 ≡ some (ensure_chat key now m).1
unfolding ensure_chat
ensure_chat_stands key now m = ground (
  arith,
  lookup-insert key key (new_chat key now) (make_room key.username m),
  key_beq_iff key key,
)

mark_running-Runs :
    (turn_id : Text) (key : ChatKey) (now : Time) (m : Chats)
    → (chat : TrackedChat) × (lookup key (mark_running turn_id key now m) ≡ some chat)
      × Runs turn_id now chat
unfolding mark_running
mark_running-Runs turn_id key now m = (
  written,
  ground (
    arith,
    lookup-replace key key written (ensure_chat key now m).0,
    ensure_chat_stands key now m,
    key_beq_iff key key,
  ),
  record {
    running = refl;
    updated = refl;
    leased = mark_turn_running_leases (ensure_chat key now m).1 turn_id now;
  },
)
  where
    marked : TrackedChat
    marked = mark_turn_running (ensure_chat key now m).1 turn_id now

    written : TrackedChat
    written = record marked { view = record (marked.view) { updated_at = now; running = true } }

-- After an accepted start or refresh its chat is tracked, whatever was evicted for it: it runs, was
-- updated now, and its turn holds a lease of its own from now on, or shares the lease of the turns
-- beyond the bound.
pub accept-Runs :
    (username : Text) (event : Event) (now : Time) (t : Tracker)
    → (event.action ≡ start) ⊎ (event.action ≡ refresh)
    → (chat : TrackedChat) × (lookup (event_key username event) (accept username event now t).chats
        ≡ some chat)
      × Runs event.turn_id now chat
unfolding accept apply_action
accept-Runs username event now t (inl e) =
    rw (e, apply_action) (mark_running-Runs event.turn_id _ now _)
accept-Runs username event now t (inr e) =
    rw (e, apply_action) (mark_running-Runs event.turn_id _ now _)

-- After the end of a session its chat is gone.
pub accept_end_session :
    (username : Text) (event : Event) (now : Time) (t : Tracker)
    → event.action ≡ end_session
    → lookup (event_key username event) (accept username event now t).chats ≡ none
unfolding accept apply_action
accept_end_session username event now t e =
    rw (e, apply_action)
      (ground (
        arith,
        lookup-delete (event_key username event) (event_key username event)
            (prune t.expires_after now t.chats).0,
        key_beq_iff (event_key username event) (event_key username event),
      ))
