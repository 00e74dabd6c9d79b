-- ===== src/Hub/Chats.antt =====
-- internal/hub/hub.go: the running chats of an account, from the users' runtime inventories and from
-- the activity that hooks report. `time.Unix` at a second before year 1 stops there.
pub mod Shown
pub mod Listed
use unibe_clan.Base.{
  ℕ, ◌+◌, ◌-◌, ◌*◌, Bool, true, false, not, ◌&&◌, ◌||◌, Option, none, some, List, [], ◌∷◌, keep,
  map, if◌then◌else◌, ltb, ◌==◌ as nat_beq,
}
use unibe_clan.Base.Keys.{Text, text_beq, text_eq, text_lt}
use unibe_clan.Base.Int.{ℤ, pos, pos_part, neg_part, eqb_ℤ}
use unibe_clan.Base.Map.{lookup, insert}
use unibe_clan.Base.Sort.{sort_by}
use unibe_clan.Base.Time.{Time, is_zero, second}
use unibe_clan.Base.Unicode.{text}
use unibe_clan.Model.{RecentThread, RuntimeThread}
use unibe_clan.Model.Names.{is_empty, sanitize_task_name}
use unibe_clan.Model.Status.{ActiveChat}
use unibe_clan.Activity.Chats.{ChatKey, key_eq}
use unibe_clan.Hub.Entry.{
  ActivityRef, has, Entry, is_consumer, is_ok, entry_stale, runtime_inventory_recent,
}

-- `time.Unix(seconds, 0)`
unfoldable pub time_of_unix : ℤ → Time
time_of_unix seconds = (62_135_596_800 + pos_part seconds - neg_part seconds) * second

unfoldable pub normalize_chat_times : Time → Time → Time → Time × Time
normalize_chat_times started_at updated_at fallback =
    let given = if is_zero fallback then time_of_unix (pos 0) else fallback in
    if is_zero started_at && is_zero updated_at
    then (given, given)
    else (let started = if is_zero started_at then updated_at else started_at in
        let updated = if is_zero updated_at then started else updated_at in
        if ltb updated started then (updated, started) else (started, updated))

unfoldable pub runtime_chat_times : RuntimeThread → Time → Time → Time × Time
runtime_chat_times t fallback now =
    let started_at : Time = if eqb_ℤ t.created_at (pos 0) then 0 else time_of_unix t.created_at in
    let updated_at : Time = if eqb_ℤ t.updated_at (pos 0) then 0 else time_of_unix t.updated_at in
    normalize_chat_times started_at updated_at (if is_zero fallback then now else fallback)

unfoldable pub earlier_time : Time → Time → Time
earlier_time left right =
    if is_zero left || not (is_zero right) && ltb right left then right else left

unfoldable pub later_time : Time → Time → Time
later_time left right = if is_zero left || ltb left right then right else left

-- `map[privateChatKey]model.ActiveChat`: a key is a user and a session.
abbrev pub Projected : Type 0
Projected = List (ChatKey × ActiveChat)

abbrev pub chat_key : Text → Text → ChatKey
chat_key username session = record { username = username; session_id = session }

-- The chat of a loaded thread.
abbrev pub runtime_chat : Text → Time → Time → RuntimeThread → ActiveChat
runtime_chat username fallback now t = record {
  task_name = sanitize_task_name t.task_name;
  username = username;
  started_at = (runtime_chat_times t fallback now).0;
  updated_at = (runtime_chat_times t fallback now).1;
  running = t.running;
}

-- The inner loop over one user's loaded threads.
unfoldable pub project_threads :
    Text → Time → Time → List (Text × RuntimeThread) → Projected → Projected
project_threads username fallback now [] m = m
project_threads username fallback now ((session_id, t) ∷ ts) m =
    let rest = project_threads username fallback now ts m in
    if is_empty session_id
    then rest
    else insert (chat_key username session_id) (runtime_chat username fallback now t) rest

-- A user without an entry does not occur in `order`.
unfoldable pub shows_runtime : Text → Time → ℕ → Entry → Bool
shows_runtime account_key now stale_after e = not (
    not (is_consumer e.identity)
    || not (text_beq e.membership account_key)
    || not (is_ok e.current.state)
    || entry_stale e now stale_after
    || not (runtime_inventory_recent e now))

unfoldable pub project_user : Text → Time → ℕ → Text → Entry → Projected → Projected
project_user account_key now stale_after username e m =
    if shows_runtime account_key now stale_after e
    then project_threads username
        (if is_zero e.current.observed_at then e.last_seen_at else e.current.observed_at) now
        e.runtime_threads m
    else m

unfoldable pub project_users :
    Text → Time → ℕ → List (Text × Entry) → List Text → Projected → Projected
project_users account_key now stale_after entries [] m = m
project_users account_key now stale_after entries (username ∷ order) m =
    elim (lookup username entries) [
      | none ↦ project_users account_key now stale_after entries order m
      | some e ↦
          project_users account_key now stale_after entries order
            (project_user account_key now stale_after username e m)
    ]

-- The guards of the loop over the activity: whether the session may be shown.
unfoldable pub may_show : Text → ActivityRef → Entry → Bool
may_show account_key a e = not (
    is_empty a.session_id
    || not (is_consumer e.identity)
    || not (text_beq e.membership account_key)
    || e.runtime_quarantine_pending
    || has a.session_id e.runtime_quarantine)

abbrev pub active_codex_task : Text
active_codex_task = text "Active Codex task"

unfoldable pub recent_name : Option RecentThread → Text
recent_name none = active_codex_task
recent_name (some t) = t.task_name

-- What the loop does with an activity that may be shown.
unfoldable pub merge_activity : Time → ActivityRef → Entry → Projected → Projected
merge_activity now a e m =
    let key = chat_key a.username a.session_id in
    let (started_at, updated_at) = normalize_chat_times a.started_at a.updated_at now in
    elim (lookup key m) [
      | some chat ↦
          insert key
            (record chat {
              started_at = earlier_time chat.started_at started_at;
              updated_at = later_time chat.updated_at updated_at;
              running = chat.running || a.running;
            })
            m
      | none ↦
          insert key
            (record {
              task_name = sanitize_task_name (recent_name (lookup a.session_id e.recent_threads));
              username = a.username;
              started_at = started_at;
              updated_at = updated_at;
              running = a.running;
            })
            m
    ]

unfoldable pub merge_activities :
    Text → Time → List (Text × Entry) → List ActivityRef → Projected → Projected
merge_activities account_key now entries [] m = m
merge_activities account_key now entries (a ∷ as_) m = elim (lookup a.username entries) [
  | none ↦ merge_activities account_key now entries as_ m
  | some e ↦
      merge_activities account_key now entries as_
        (if may_show account_key a e then merge_activity now a e m else m)
]

unfoldable pub chat_before : ActiveChat → ActiveChat → Bool
chat_before a b =
    if not (nat_beq a.updated_at b.updated_at)
    then ltb b.updated_at a.updated_at
    else if not (text_beq a.username b.username)
    then text_lt a.username b.username
    else text_lt a.task_name b.task_name

abbrev pub projected_chats :
    Text → List ActivityRef → Time → ℕ → List (Text × Entry) → List Text → Projected
projected_chats account_key activities now stale_after entries order =
    merge_activities account_key now entries activities
      (project_users account_key now stale_after entries order [])

-- `activeChatsLocked`
unfoldable pub active_chats :
    Text → List ActivityRef → Time → ℕ → List (Text × Entry) → List Text → List ActiveChat
active_chats account_key activities now stale_after entries order = sort_by chat_before (
    keep (λ (chat : ActiveChat). chat.running)
      (map (λ e. e.1) (projected_chats account_key activities now stale_after entries order)))
