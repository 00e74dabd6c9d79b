-- ===== src/Activity/Chats.antt =====
-- internal/activity/tracker.go: the chats of a tracker, and which of them are evicted. A map is an
-- association list, in any order, as Go's iteration over it is.
pub mod Order
pub mod Oldest
pub mod Kept
pub mod Room
use unibe_clan.Base.{
  ◌≡◌, ◌↔◌, arith, ℕ, zero, suc, ◌+◌, ◌-◌, Bool, true, false, not, ◌&&◌, ◌||◌, Option, none, some,
  List, [], ◌∷◌, length, keep, map, ltb, leb, if◌then◌else◌,
}
use unibe_clan.Base.Keys.{Keyed, Text, ◌==◌, nat_eq, text_eq, text_lt, text_beq, text_beq_iff}
use unibe_clan.Base.Int.{ℤ, pos, leb_ℤ, pos_part}
use unibe_clan.Base.Map.{lookup, insert, delete}
use unibe_clan.Base.Result.{Result, ok, err}
use unibe_clan.Base.Sort.{sort_by}
use unibe_clan.Base.Time.{Time, is_zero}
use unibe_clan.Activity.Event.{
  ActivityError, untrusted_peer, Action, session_start, start, refresh, end_turn, end_session,
  unknown, Event, validate, valid_username,
}

pub record Chat : Type 0 where
  pub username : Text
  pub session_id : Text
  pub started_at : Time
  pub updated_at : Time
  pub running : Bool

pub record ChatKey : Type 0 where
  pub username : Text
  pub session_id : Text

abbrev pub key_beq : ChatKey → ChatKey → Bool
key_beq k j = text_beq k.username j.username && text_beq k.session_id j.session_id

pub key_beq_iff : (k j : ChatKey) → (key_beq k j ≡ true) ↔ (k ≡ j)
key_beq_iff k j =
    ground (arith, text_beq_iff k.username j.username, text_beq_iff k.session_id j.session_id)

instance abbrev pub key_eq : Keyed ChatKey
key_eq = record { same = key_beq; same_iff = key_beq_iff }

abbrev pub bool_eq : Bool → Bool → Bool
bool_eq true b = b
bool_eq false b = not b

pub record TrackedChat : Type 0 where
  pub view : Chat
  pub running_turns : List (Text × Time)
  pub overflow_updated_at : Time

abbrev pub Chats : Type 0
Chats = List (ChatKey × TrackedChat)

abbrev pub max_active_chats_per_user : ℕ
max_active_chats_per_user = 64

abbrev pub max_active_chats : ℕ
max_active_chats = 2048

-- `chatOlder`: the order in which chats are evicted.
unfoldable pub chat_older : Chat → ChatKey → Chat → ChatKey → Bool
chat_older left left_key right right_key =
    if not (bool_eq left.running right.running)
    then not left.running
    else if not (left.updated_at == right.updated_at)
    then ltb left.updated_at right.updated_at
    else if not (left.started_at == right.started_at)
    then ltb left.started_at right.started_at
    else if not (left_key.username == right_key.username)
    then text_lt left_key.username right_key.username
    else if not (left_key.session_id == right_key.session_id)
    then text_lt left_key.session_id right_key.session_id
    else false

-- Whether `oldestLocked` looks at a key: the empty name stands for every user.
abbrev pub concerns : Text → ChatKey → Bool
concerns username key = username == [] || key.username == username

-- The loop of `oldestLocked`; the accumulator is `oldestKey` and `oldest` where `found` is set.
unfoldable pub oldest_from : Text → Chats → Option (ChatKey × Chat) → Option (ChatKey × Chat)
oldest_from username [] found = found
oldest_from username ((key, chat) ∷ m) found = oldest_from username m (
    if not (concerns username key) then found else elim found [
      | none ↦ some (key, chat.view)
      | some (oldest_key, oldest) ↦
          if chat_older chat.view key oldest oldest_key
          then some (key, chat.view)
          else some (oldest_key, oldest)
    ])

unfoldable pub oldest_key : Text → Chats → Option ChatKey
oldest_key username m = elim (oldest_from username m none) [ none ↦ none | some (k, _) ↦ some k ]

unfoldable pub count_user : Text → Chats → ℕ
count_user username [] = 0
count_user username ((key, _) ∷ m) =
    let rest = count_user username m in if key.username == username then suc rest else rest

-- The body of the loops of `makeRoomLocked`.
unfoldable pub drop_oldest : Text → Chats → Chats
drop_oldest username m = elim (oldest_key username m) [ none ↦ m | some key ↦ delete key m ]

-- The two loops of `makeRoomLocked`, on fuel.
unfoldable pub evict_user : ℕ → Text → Chats → Chats
evict_user zero username m = m
evict_user (suc fuel) username m = elim (leb max_active_chats_per_user (count_user username m)) [
  | true ↦ evict_user fuel username (drop_oldest username m)
  | false ↦ m
]

unfoldable pub evict_any : ℕ → Chats → Chats
evict_any zero m = m
evict_any (suc fuel) m = elim (leb max_active_chats (length m)) [
  | true ↦ evict_any fuel (drop_oldest [] m)
  | false ↦ m
]

-- `makeRoomLocked`. A round deletes a chat, so the number of chats is enough fuel.
unfoldable pub make_room : Text → Chats → Chats
make_room username m = let kept = evict_user (length m) username m in evict_any (length kept) kept
