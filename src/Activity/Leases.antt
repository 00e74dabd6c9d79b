-- ===== src/Activity/Leases.antt =====
-- internal/activity/tracker.go: the leases of a chat: its running turns, the lease that stands for
-- the turns beyond the bound, and their expiry. A duration is a number of nanoseconds.
pub mod Expiry
pub mod Delay
use unibe_clan.Base.{
  ℕ, ◌+◌, ◌-◌, Bool, true, false, not, ◌&&◌, ◌||◌, Option, none, some, List, [], ◌∷◌, length, keep,
  map, ltb, if◌then◌else◌,
}
use unibe_clan.Base.Keys.{Text, ◌==◌, nat_eq, text_eq, text_lt}
use unibe_clan.Base.Int.{ℤ, pos, leb_ℤ, pos_part}
use unibe_clan.Base.Map.{lookup, insert, delete}
use unibe_clan.Base.Result.{Result, ok, err}
use unibe_clan.Base.Sort.{sort_by}
use unibe_clan.Base.Time.{Time, is_zero}
use unibe_clan.Activity.Chats.{Chat, ChatKey, key_eq, TrackedChat, Chats, make_room}
use unibe_clan.Activity.Event.{
  ActivityError, untrusted_peer, Action, session_start, start, refresh, end_turn, end_session,
  unknown, Event, validate, valid_username,
}

abbrev pub max_running_turns_per_chat : ℕ
max_running_turns_per_chat = 32

-- `markTurnRunningLocked`
unfoldable pub mark_turn_running : TrackedChat → Text → Time → TrackedChat
mark_turn_running chat turn_id now = elim (lookup turn_id chat.running_turns) [
  | some _ ↦ record chat { running_turns = insert turn_id now chat.running_turns }
  | none ↦
      if ltb (length chat.running_turns) max_running_turns_per_chat
      then record chat { running_turns = insert turn_id now chat.running_turns }
      else record chat { overflow_updated_at = now }
]

-- `len(chat.runningTurns) != 0 || !chat.overflowUpdatedAt.IsZero()`
abbrev pub has_lease : TrackedChat → Bool
has_lease chat = not (length chat.running_turns == 0) || not (is_zero chat.overflow_updated_at)

-- The inner loop of `pruneLocked` over the turns of one chat.
unfoldable pub prune_turns : ℕ → Time → List (Text × Time) → List (Text × Time)
prune_turns expires now = keep (λ turn. ltb now (turn.1 + expires))

-- The body of the loop of `pruneLocked` up to the deletion.
unfoldable pub prune_chat : ℕ → Time → TrackedChat → TrackedChat
unfolding prune_turns
prune_chat expires now chat =
    let turns = prune_turns expires now chat.running_turns in
    let overflow = chat.overflow_updated_at in
    let overflow' : Time =
      if not (is_zero overflow) && not (ltb now (overflow + expires)) then 0 else overflow in
    let pruned : TrackedChat = record chat {
      running_turns = turns;
      overflow_updated_at = overflow';
    } in
    record pruned { view = record (pruned.view) { running = has_lease pruned } }

-- Whether that body set `changed`.
unfoldable pub prune_changes : ℕ → Time → TrackedChat → Bool
unfolding prune_turns
prune_changes expires now chat =
    not (length (prune_turns expires now chat.running_turns) == length chat.running_turns)
    || (not (is_zero chat.overflow_updated_at)
        && not (ltb now (chat.overflow_updated_at + expires)))

-- Whether the loop of `pruneLocked` deletes the chat that it has pruned.
unfoldable pub is_expired : ℕ → Time → TrackedChat → Bool
is_expired expires now chat =
    not chat.view.running && not (ltb now (chat.view.updated_at + expires))

-- `pruneLocked`: the chats that stay, and `changed`.
unfoldable pub prune : ℕ → Time → Chats → Chats × Bool
prune expires now [] = ([], false)
prune expires now ((key, chat) ∷ m) =
    let (kept, changed) = prune expires now m in
    let chat' = prune_chat expires now chat in
    let touched = prune_changes expires now chat || changed in
    if is_expired expires now chat' then (kept, true) else ((key, chat') ∷ kept, touched)

-- `next.IsZero() || expiresAt.Before(next)`
abbrev pub earlier : Time → Time → Time
earlier next expires_at = if is_zero next || ltb expires_at next then expires_at else next

unfoldable pub next_turn : ℕ → List (Text × Time) → Time → Time
next_turn expires [] next = next
next_turn expires ((_, updated_at) ∷ turns) next =
    next_turn expires turns (earlier next (updated_at + expires))

-- The body of the loop of `nextExpiryDelay`.
unfoldable pub next_chat : ℕ → TrackedChat → Time → Time
next_chat expires chat next =
    if length chat.running_turns == 0 && is_zero chat.overflow_updated_at
    then earlier next (chat.view.updated_at + expires)
    else (let turns = next_turn expires chat.running_turns next in
        if not (is_zero chat.overflow_updated_at)
        then earlier turns (chat.overflow_updated_at + expires)
        else turns)

-- The loop of `nextExpiryDelay`.
unfoldable pub next_expiry : ℕ → Chats → Time → Time
next_expiry expires [] next = next
next_expiry expires ((_, chat) ∷ m) next = next_expiry expires m (next_chat expires chat next)
