-- ===== src/Activity/Tracker.antt =====
-- internal/activity/tracker.go: the tracker of the chats that hook clients report. A method takes
-- the tracker and the clock's reading and returns the new tracker. The mutex makes each method one
-- step. Maps are association lists, in any order; a chat that the source changes through its
-- pointer is replaced under its key, if it is still there. The delay until the next expiry is exact:
-- `Sub` saturates a duration of more than 292 years.
pub mod Valid
pub mod Actions
pub mod Invariant
pub mod Deadline
pub mod Effects
pub mod Lives
pub mod Views
pub mod Reach
use unibe_clan.Base.{
  ℕ, ◌+◌, ◌-◌, Bool, true, false, not, ◌&&◌, ◌||◌, Option, none, some, List, [], ◌∷◌, length, keep,
  map, ltb, if◌then◌else◌,
}
use unibe_clan.Base.Keys.{Text, ◌==◌, nat_eq, text_eq, text_lt}
use unibe_clan.Base.Int.{ℤ, pos, leb_ℤ, pos_part}
use unibe_clan.Base.Map.{lookup, insert, replace, delete}
use unibe_clan.Base.Result.{Result, ok, err}
use unibe_clan.Base.Sort.{sort_by}
use unibe_clan.Base.Time.{Time, is_zero}
use unibe_clan.Activity.Chats.{Chat, ChatKey, key_eq, TrackedChat, Chats, make_room}
use unibe_clan.Activity.Leases.{mark_turn_running, has_lease, prune, next_expiry}
use unibe_clan.Activity.Event.{
  ActivityError, untrusted_peer, Action, session_start, start, refresh, end_turn, end_session,
  unknown, Event, validate, valid_username,
}

pub record Identity : Type 0 where
  pub username : Text
  pub uid : ℕ

-- `changed` is a channel with room for one token: whether it holds one.
pub record Tracker : Type 0 where
  pub by_uid : List (ℕ × Text)
  pub chats : Chats
  pub expires_after : ℕ
  pub changed : Bool

pub data NewError : Type 0 where
  expiry_not_positive invalid_username duplicate_username duplicate_uid : NewError

-- The loop of `New` over the identities.
add_identities :
    List Identity → List (Text × Bool) → List (ℕ × Text) → Result NewError (List (ℕ × Text))
add_identities [] seen by_uid = ok by_uid
add_identities (i ∷ is) seen by_uid =
    let rest = add_identities is (insert i.username true seen) (insert i.uid i.username by_uid) in
    if not (valid_username i.username)
    then err invalid_username
    else elim (lookup i.username seen) [
      | some _ ↦ err duplicate_username
      | none ↦ elim (lookup i.uid by_uid) [ some _ ↦ err duplicate_uid | none ↦ rest ]
    ]

unfoldable pub new : List Identity → ℤ → Result NewError Tracker
unfolding add_identities
new identities expires_after =
    if leb_ℤ expires_after (pos 0)
    then err expiry_not_positive
    else elim (add_identities identities [] []) [
      | err e ↦ err e
      | ok by_uid ↦ ok (record {
        by_uid = by_uid;
        chats = [];
        expires_after = pos_part expires_after;
        changed = false;
      })
    ]

abbrev pub new_chat : ChatKey → Time → TrackedChat
new_chat key now = record {
  view = record {
    username = key.username;
    session_id = key.session_id;
    started_at = now;
    updated_at = now;
    running = false;
  };
  running_turns = [];
  overflow_updated_at = 0;
}

-- `ensureChatLocked`: the chats, and the chat under the key.
unfoldable pub ensure_chat : ChatKey → Time → Chats → Chats × TrackedChat
ensure_chat key now m = elim (lookup key m) [
  | some chat ↦ (m, chat)
  | none ↦ (insert key (new_chat key now) (make_room key.username m), new_chat key now)
]

-- The case of `Apply` for a start and a refresh.
unfoldable pub mark_running : Text → ChatKey → Time → Chats → Chats
unfolding mark_turn_running ensure_chat
mark_running turn_id key now m =
    let (m', chat) = ensure_chat key now m in
    let marked = mark_turn_running chat turn_id now in
    replace key (record marked { view = record (marked.view) { updated_at = now; running = true } })
      m'

-- The `switch` of `Apply`.
unfoldable pub apply_action : Action → Text → ChatKey → Time → Chats → Chats
apply_action session_start turn_id key now m =
    let (m', chat) = ensure_chat key now m in
    replace key (record chat { view = record (chat.view) { updated_at = now } }) m'
apply_action start turn_id key now m = mark_running turn_id key now m
apply_action refresh turn_id key now m = mark_running turn_id key now m
apply_action end_turn turn_id key now m =
    let (m', chat) = ensure_chat key now m in
    let ended = record chat { running_turns = delete turn_id chat.running_turns } in
    replace key
      (record ended { view = record (ended.view) { updated_at = now; running = has_lease ended } })
      m'
apply_action end_session turn_id key now m = delete key m
apply_action (unknown a) turn_id key now m = m

-- `Apply` from the clock's reading on, for a trusted user and a valid event.
unfoldable pub accept : Text → Event → Time → Tracker → Tracker
accept username event now tracker = record tracker {
  chats =
      apply_action event.action event.turn_id
        (record { username = username; session_id = event.session_id }) now
        (prune tracker.expires_after now tracker.chats).0;
  changed = true;
}

-- `Apply`, with the error that it returns; `none` is the nil error.
unfoldable pub apply : ℕ → Event → Time → Tracker → Tracker × Option ActivityError
apply uid event now tracker = elim (lookup uid tracker.by_uid) [
  | none ↦ (tracker, some untrusted_peer)
  | some username ↦ elim (validate event) [
    | some e ↦ (tracker, some e)
    | none ↦ (accept username event now tracker, none)
  ]
]

-- `nextExpiryDelay`: the delay, or `none` for `0, false`.
unfoldable pub next_expiry_delay : Time → Tracker → Option ℕ
unfolding next_expiry
next_expiry_delay now tracker =
    let next = next_expiry tracker.expires_after tracker.chats 0 in
    if is_zero next then none else if ltb next now then some 0 else some (next - now)

-- The order of `snapshotLocked`.
unfoldable pub before : Chat → Chat → Bool
before left right =
    if not (left.username == right.username)
    then text_lt left.username right.username
    else text_lt left.session_id right.session_id

-- `snapshotLocked`
unfoldable pub snapshot_chats : Text → Chats → List Chat
unfolding before
snapshot_chats username m =
    sort_by before
      (keep (λ chat. username == [] || chat.username == username) (map (λ e. e.1.view) m))

-- `SnapshotAt`, and `Snapshot` at the clock's reading.
unfoldable pub snapshot_at : Time → Tracker → Tracker × List Chat
snapshot_at now tracker =
    let pruned = (prune tracker.expires_after now tracker.chats).0 in
    (record tracker { chats = pruned }, snapshot_chats [] pruned)

-- `ForUsername`
unfoldable pub for_username : Text → Time → Tracker → Tracker × List Chat
for_username username now tracker =
    let pruned = (prune tracker.expires_after now tracker.chats).0 in
    (record tracker { chats = pruned }, snapshot_chats username pruned)

-- `Lookup`; `none` for a chat that does not exist.
unfoldable pub lookup_chat : Text → Text → Time → Tracker → Tracker × Option Chat
lookup_chat username session_id now tracker =
    let pruned = (prune tracker.expires_after now tracker.chats).0 in
    let key : ChatKey = record { username = username; session_id = session_id } in
    (
      record tracker { chats = pruned },
      elim (lookup key pruned) [ none ↦ none | some chat ↦ some (chat.view) ],
    )
