-- ===== src/Activity/Tracker/Actions.antt =====
-- The operations of `Apply` keep a map of chats valid.
use unibe_clan.Base.{
  ◌≤◌, ◌≡◌, ◌≢◌, refl, sym, inl, inr, true, none, some, List, [], arith, Bool-cases, Option-cases,
  length, ltb,
}
use unibe_clan.Base.Keys.{Text, nat_eq, text_eq, text_beq_iff}
use unibe_clan.Base.Map.{
  lookup, delete, Unique, insert-Unique, delete-Unique, All-insert, All-delete, All-lookup,
  length-insert_new, length-insert_old, length-delete-le, lookup-insert, All-of_inside,
  length-insert-pos,
}
use unibe_clan.Base.Time.{Time}
use unibe_clan.Activity.Chats.{ChatKey, key_eq, key_beq_iff, TrackedChat, Chats, make_room}
use unibe_clan.Activity.Chats.Room.{make_room-MadeRoom}
use unibe_clan.Activity.Chats.Kept.{count_user-delete-le}
use unibe_clan.Activity.Leases.{has_lease, mark_turn_running, max_running_turns_per_chat}
use unibe_clan.Activity.Event.{
  Action, session_start, start, refresh, end_turn, end_session, unknown,
}
use unibe_clan.Activity.Tracker.{new_chat, ensure_chat, mark_running, apply_action}
use unibe_clan.Activity.Tracker.Valid.{
  ChatIsValid, Valid, ChatsAreValid, replace-ChatsAreValid, count_user-insert_new,
}

absent_after :
    (k : ChatKey) (m n : Chats)
    → lookup k m ≡ none
    → ((j : ChatKey) (t : TrackedChat) → lookup j n ≡ some t → lookup j m ≡ some t)
    → lookup k n ≡ none
absent_after k m n h inside = elim (Option-cases (lookup k n)) [
  | inl none_n ↦ none_n
  | inr (t, some_n) ↦ absurd (ground (arith, inside k t some_n))
]

new_chat-ChatIsValid : (key : ChatKey) (now : Time) → ChatIsValid key (new_chat key now)
new_chat-ChatIsValid key now = record {
  named = (refl, refl);
  turns_unique = tt;
  turns_bounded = omega arith;
  coherent = refl;
}

-- The chat of the event stands in the map that `ensureChatLocked` leaves, which is valid.
pub record Ensured (key : ChatKey) (r : Chats × TrackedChat) : Type 0 where
  pub stands : lookup key r.0 ≡ some (r.1)
  pub chats : ChatsAreValid r.0
  pub chat : ChatIsValid key r.1

ensure_chat-Ensured :
    (key : ChatKey) (now : Time) (m : Chats)
    → key.username ≢ []
    → ChatsAreValid m
    → Ensured key (ensure_chat key now m)
unfolding ensure_chat
ensure_chat-Ensured key now m named v = elim (Option-cases (lookup key m)) [
  | inr (t, found) ↦
      rw (found, ensure_chat)
        (record { stands = found; chats = v; chat = All-lookup Valid key t m v.each found })
  | inl absent ↦
      let made = make_room-MadeRoom key.username m v.unique named in
      let space = make_room key.username m in
      let free = absent_after key m space absent (made.kept.inside) in
      let fresh = new_chat-ChatIsValid key now in
      rw (absent, ensure_chat)
        (record {
          stands =
              ground (arith, lookup-insert key key (new_chat key now) space, key_beq_iff key key);
          chats = record {
            unique = insert-Unique key _ space (made.kept.unique);
            each =
                All-insert Valid key _ space fresh
                  (All-of_inside Valid m space (made.kept.unique) (made.kept.inside) v.each);
            total =
                omega (arith, length-insert_new key (new_chat key now) space free, made.total_room);
            per_user = λ u. ground (
              arith,
              count_user-insert_new u key (new_chat key now) space free,
              text_beq_iff key.username u,
              made.user_room,
              made.kept.fewer u,
              v.per_user u,
            );
          };
          chat = fresh;
        })
]

-- A turn that is marked running leaves a lease, within the bounds.
record Marked (t marked : TrackedChat) : Type 0 where
  unique : Unique marked.running_turns
  bounded : length marked.running_turns ≤ max_running_turns_per_chat
  leased : has_lease marked ≡ true
  same_view : marked.view ≡ t.view

mark_turn_running-Marked :
    (k : ChatKey) (t : TrackedChat) (turn_id : Text) (now : Time)
    → now ≢ 0
    → ChatIsValid k t
    → Marked t (mark_turn_running t turn_id now)
unfolding mark_turn_running
mark_turn_running-Marked k t turn_id now nonzero v = elim (Option-cases (lookup turn_id turns)) [
  | inr (at, found) ↦
      rw (found, mark_turn_running)
        (record {
          unique = insert-Unique turn_id now turns v.turns_unique;
          bounded = omega (arith, v.turns_bounded, length-insert_old turn_id now at turns found);
          leased = ground (arith, length-insert-pos turn_id now turns);
          same_view = refl;
        })
  | inl absent ↦ elim (Bool-cases (ltb (length turns) max_running_turns_per_chat)) [
    | inl room ↦
        rw (absent, mark_turn_running)
          (rw room (record {
            unique = insert-Unique turn_id now turns v.turns_unique;
            bounded = ground (arith, length-insert_new turn_id now turns absent);
            leased = ground (arith, length-insert-pos turn_id now turns);
            same_view = refl;
          }))
    | inr full ↦
        rw (absent, mark_turn_running)
          (rw full (record {
            unique = v.turns_unique;
            bounded = v.turns_bounded;
            leased = ground arith;
            same_view = refl;
          }))
  ]
]
  where
    turns : List (Text × Time)
    turns = t.running_turns

mark_running-ChatsAreValid :
    (turn_id : Text) (key : ChatKey) (now : Time) (m : Chats)
    → now ≢ 0
    → key.username ≢ []
    → ChatsAreValid m
    → ChatsAreValid (mark_running turn_id key now m)
unfolding mark_running
mark_running-ChatsAreValid turn_id key now m nonzero named v =
    let e = ensure_chat-Ensured key now m named v in
    let k = mark_turn_running-Marked key (ensure_chat key now m).1 turn_id now nonzero (e.chat) in
    replace-ChatsAreValid key _ _ _ (e.stands)
      (record {
        named = ground (arith, k.same_view, e.chat.named);
        turns_unique = k.unique;
        turns_bounded = k.bounded;
        coherent = sym (k.leased);
      })
      (e.chats)

end_turn-ChatsAreValid :
    (turn_id : Text) (key : ChatKey) (now : Time) (m : Chats)
    → key.username ≢ []
    → ChatsAreValid m
    → ChatsAreValid (apply_action end_turn turn_id key now m)
unfolding apply_action
end_turn-ChatsAreValid turn_id key now m named v =
    let e = ensure_chat-Ensured key now m named v in
    let turns = (ensure_chat key now m).1.running_turns in
    replace-ChatsAreValid key _ _ _ (e.stands)
      (record {
        named = e.chat.named;
        turns_unique = delete-Unique turn_id turns (e.chat.turns_unique);
        turns_bounded = omega (arith, e.chat.turns_bounded, length-delete-le turn_id turns);
        coherent = refl;
      })
      (e.chats)

delete-ChatsAreValid : (k : ChatKey) (m : Chats) → ChatsAreValid m → ChatsAreValid (delete k m)
delete-ChatsAreValid k m v = record {
  unique = delete-Unique k m v.unique;
  each = All-delete Valid k m v.each;
  total = omega (arith, v.total, length-delete-le k m);
  per_user = λ u. omega (arith, v.per_user u, count_user-delete-le u k m);
}

pub apply_action-ChatsAreValid :
    (a : Action) (turn_id : Text) (key : ChatKey) (now : Time) (m : Chats)
    → now ≢ 0
    → key.username ≢ []
    → ChatsAreValid m
    → ChatsAreValid (apply_action a turn_id key now m)
unfolding apply_action
apply_action-ChatsAreValid session_start turn_id key now m nonzero named v =
    let e = ensure_chat-Ensured key now m named v in
    replace-ChatsAreValid key _ _ _ (e.stands)
      (record {
        named = e.chat.named;
        turns_unique = e.chat.turns_unique;
        turns_bounded = e.chat.turns_bounded;
        coherent = e.chat.coherent;
      })
      (e.chats)
apply_action-ChatsAreValid start turn_id key now m nonzero named v =
    mark_running-ChatsAreValid turn_id key now m nonzero named v
apply_action-ChatsAreValid refresh turn_id key now m nonzero named v =
    mark_running-ChatsAreValid turn_id key now m nonzero named v
apply_action-ChatsAreValid end_turn turn_id key now m nonzero named v =
    end_turn-ChatsAreValid turn_id key now m named v
apply_action-ChatsAreValid end_session turn_id key now m nonzero named v =
    delete-ChatsAreValid key m v
apply_action-ChatsAreValid (unknown a) turn_id key now m nonzero named v = v
