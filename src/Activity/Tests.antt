-- ===== src/Activity/Tests.antt =====
-- Concrete trackers: Go's duration of 90 seconds, two users, a few events.
use mathlib.Core.List.{Permᴰ}
use unibe_clan.Base.{
  ◌+◌, ◌*◌, ◌≤◌, ◌≡◌, ◌↔◌, ◌≢◌, refl, inl, true, false, none, some, List, [], ◌∷◌, arith, all, keep,
  map,
}
use unibe_clan.Base.Keys.{Text, nat_eq, text_eq, text_beq}
use unibe_clan.Base.Int.{pos}
use unibe_clan.Base.Map.{lookup, insert}
use unibe_clan.Base.Result.{ok}
use unibe_clan.Base.Sort.{IsSorted}
use unibe_clan.Base.Time.{Time, second}
use unibe_clan.Base.Unicode.{text, byte_len, trim_space, is_space}
use unibe_clan.Activity.Event.{
  Event, start, validate, valid_opaque_id, valid_username, is_id_char, is_username_char,
}
use unibe_clan.Activity.Event.Ids.{WellFormed, validate_iff}
use unibe_clan.Activity.Chats
use unibe_clan.Activity.Chats.{
  Chat, ChatKey, key_eq, TrackedChat, Chats, oldest_key, make_room, count_user,
}
use unibe_clan.Activity.Chats.Oldest.{oldest_key-perm}
use unibe_clan.Activity.Chats.Room.{MadeRoom, make_room-MadeRoom}
use unibe_clan.Activity.Leases.{prune, next_expiry, next_chat, next_turn, mark_turn_running}
use unibe_clan.Activity.Leases.Expiry.{Option_bind, survivor}
use unibe_clan.Activity.Tracker.{
  Identity, Tracker, new, apply, accept, next_expiry_delay, snapshot_chats, before, apply_action,
  mark_running, ensure_chat,
}
use unibe_clan.Activity.Tracker.Deadline.{next_expiry_delay_exact}
use unibe_clan.Activity.Tracker.Effects.{
  Runs, event_key, apply_outcome, accept-isolates, accept-Runs,
}
use unibe_clan.Activity.Tracker.Invariant.{IsValid}
use unibe_clan.Activity.Tracker.Lives.{IsPruned, prune-lives}
use unibe_clan.Activity.Tracker.Reach.{Call, Reaches, new-Reaches-IsValid}
use unibe_clan.Activity.Tracker.Views.{snapshot_chats_lem, wanted}

program : Unit {0}
unfolding new valid_username byte_len trim_space is_space all is_username_char text_beq lookup
    insert
program = tt

running : Unit {0}
unfolding program apply accept validate valid_opaque_id is_id_char apply_action mark_running
    ensure_chat make_room Chats.evict_user Chats.evict_any mark_turn_running prune
running = tt

abbrev alice : Text
alice = text "alice"

abbrev bob : Text
bob = text "bob"

abbrev identities : List Identity
identities = record { username = alice; uid = 1000 } ∷ record { username = bob; uid = 1001 } ∷ []

abbrev fresh : Tracker
fresh = record {
  by_uid = (1000, alice) ∷ (1001, bob) ∷ [];
  chats = [];
  expires_after = 90 * second;
  changed = false;
}

fresh_made : new identities (pos (90 * second)) ≡ ok fresh
unfolding program
fresh_made = refl

abbrev began : Event
began = record {
  schema_version = pos 1;
  action = start;
  session_id = text "s-1";
  turn_id = text "t-1";
}

abbrev alice_key : ChatKey
alice_key = record { username = alice; session_id = text "s-1" }

abbrev noon : Time
noon = 63_900_000_000 * second

abbrev working : TrackedChat
working = record {
  view = record {
    username = alice;
    session_id = text "s-1";
    started_at = noon;
    updated_at = noon;
    running = true;
  };
  running_turns = (text "t-1", noon) ∷ [];
  overflow_updated_at = 0;
}

abbrev busy : Tracker
busy = record fresh { chats = (alice_key, working) ∷ []; changed = true }

busy_made : (apply 1000 began noon fresh).0 ≡ busy
unfolding running unibe_clan.Base.Map.replace
busy_made = refl

after_start : Reaches fresh (apply 1000 began noon fresh).0
after_start = Reaches.then Reaches.here (Call.applies 1000 began noon (omega arith))

new-Reaches-IsValid_example : IsValid (apply 1000 began noon fresh).0
new-Reaches-IsValid_example =
    new-Reaches-IsValid identities (pos (90 * second)) fresh (apply 1000 began noon fresh).0
      fresh_made after_start

busy-IsValid : IsValid busy
busy-IsValid = rw (← busy_made) new-Reaches-IsValid_example

validate_iff_example : (validate began ≡ none) ↔ WellFormed began
validate_iff_example = validate_iff began

apply_outcome_example :
    (((apply 1000 began noon fresh).1 ≡ none)
      ↔ ((lookup 1000 fresh.by_uid ≢ none) × WellFormed began))
    × ((e : _) → (apply 1000 began noon fresh).1 ≡ some e → (apply 1000 began noon fresh).0 ≡ fresh)
apply_outcome_example = apply_outcome 1000 began noon fresh

-- Bob's first event, a minute after Alice's.
abbrev later : Time
later = noon + 60 * second

accept-isolates_example :
    lookup alice_key (accept bob began later busy).chats
    ≡ Option_bind (lookup alice_key busy.chats) (survivor busy.expires_after later)
accept-isolates_example =
    accept-isolates bob began later busy busy-IsValid (λ e. cc) (omega arith) alice_key
      (λ e. ground arith)

accept-Runs_example :
    (chat : TrackedChat) × (lookup (event_key bob began) (accept bob began later busy).chats
      ≡ some chat)
    × Runs (text "t-1") later chat
accept-Runs_example = accept-Runs bob began later busy (inl refl)

busy_delay : next_expiry_delay later busy ≡ some (30 * second)
unfolding next_expiry_delay next_expiry next_chat next_turn
busy_delay = refl

next_expiry_delay_exact_example :
    ((prune busy.expires_after (noon + 90 * second) busy.chats).1 ≡ true)
    ↔ (later + 30 * second ≤ noon + 90 * second)
next_expiry_delay_exact_example =
    next_expiry_delay_exact busy (omega arith) later (30 * second) busy_delay (noon + 90 * second)
      (omega arith)

fresh_delay : next_expiry_delay later fresh ≡ none
unfolding next_expiry_delay next_expiry
fresh_delay = refl

make_room-MadeRoom_example : MadeRoom alice busy.chats (make_room alice busy.chats)
make_room-MadeRoom_example = make_room-MadeRoom alice busy.chats busy-IsValid.chats.unique (λ e. cc)

busy_oldest : oldest_key alice busy.chats ≡ some alice_key
unfolding running Chats.oldest_key Chats.oldest_from
busy_oldest = refl

abbrev bob_key : ChatKey
bob_key = record { username = bob; session_id = text "s-1" }

abbrev two_chats : Chats
two_chats = (alice_key, working) ∷ (bob_key, working) ∷ []

oldest_key-perm_example :
    oldest_key [] two_chats ≡ oldest_key [] ((bob_key, working) ∷ (alice_key, working) ∷ [])
unfolding lookup text_beq
oldest_key-perm_example = oldest_key-perm [] (Permᴰ.swap refl refl) (refl, (refl, tt))

snapshot_chats_lem_example :
    IsSorted before (snapshot_chats alice busy.chats)
    × Permᴰ
        (snapshot_chats alice busy.chats)
        (keep (wanted alice) (map (λ (e : ChatKey × TrackedChat). e.1.view) busy.chats))
    × (snapshot_chats alice busy.chats ≡ snapshot_chats alice busy.chats)
snapshot_chats_lem_example = snapshot_chats_lem alice busy-IsValid.chats (Permᴰ.cons refl Permᴰ.nil)

prune-lives_example :
    IsPruned busy.expires_after later
      (lookup alice_key busy.chats)
      (lookup alice_key (prune busy.expires_after later busy.chats).0)
prune-lives_example = prune-lives busy.expires_after later busy.chats busy-IsValid.chats alice_key
