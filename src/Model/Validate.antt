-- ===== src/Model/Validate.antt =====
-- internal/model/model.go: what a submitted snapshot must satisfy. A validation answers whether its
-- error is nil; no caller looks at the error.
pub mod Accepted
use unibe_clan.Base.{
  ℕ, ◌+◌, ◌*◌, Bool, true, false, not, ◌&&◌, ◌||◌, Option, none, some, List, [], ◌∷◌, all, length,
  map, if◌then◌else◌, ltb, leb, ◌==◌ as nat_beq,
}
use unibe_clan.Base.Keys.{Text, text_eq, text_beq}
use unibe_clan.Base.Int.{ℤ, pos, negsuc, ◌+ℤ◌, ltb_ℤ, leb_ℤ, eqb_ℤ, sub_int64}
use unibe_clan.Base.Map.{lookup, insert}
use unibe_clan.Base.Time.{Time, is_zero, second, unix}
use unibe_clan.Base.Unicode.{text, trim_space}
use unibe_clan.Model.{
  State, ok, signed_out, api_key, unavailable, unknown, Account, Window, Credits, IndividualLimit,
  RateLimit, RecentThread, RuntimeThread, Snapshot,
}
use unibe_clan.Model.Names.{is_empty, validate_text, sanitize_codex_version, max_task_name_bytes}

abbrev pub schema_version : ℤ
schema_version = pos 2

abbrev pub max_reset_credits_available : ℤ
max_reset_credits_available = pos 9_007_199_254_740_991

abbrev pub max_lifetime_tokens : ℤ
max_lifetime_tokens = pos 9_007_199_254_740_991

abbrev pub max_recent_threads : ℕ
max_recent_threads = 64

abbrev pub max_runtime_threads : ℕ
max_runtime_threads = 64

-- The last Unix time that is accepted.
abbrev pub last_timestamp : ℤ
last_timestamp = pos 32_503_680_000

unfoldable pub is_within : ℤ → ℤ → ℤ → Bool
is_within lo hi a = leb_ℤ lo a && leb_ℤ a hi

-- A pointer that is nil, or points to a value that passes.
abbrev pub absent_or {ℓ} : {A : Type ℓ} → (A → Bool) → Option A → Bool
absent_or p none = true
absent_or p (some a) = p a

abbrev pub is_absent {ℓ} : {A : Type ℓ} → Option A → Bool
is_absent none = true
is_absent (some a) = false

unfoldable pub validate_window : Window → Bool
validate_window w =
    is_within (pos 0) (pos 100) w.used_percent
    && is_within (pos 0) (pos 100) w.remaining_percent
    && eqb_ℤ (w.used_percent +ℤ w.remaining_percent) (pos 100)
    && absent_or (is_within (pos 1) (pos 5_256_000)) w.window_duration_mins
    && absent_or (is_within (pos 1) last_timestamp) w.resets_at

unfoldable pub validate_credits : Credits → Bool
validate_credits c = absent_or (λ balance. validate_text balance 64 true) c.balance

unfoldable pub validate_individual_limit : IndividualLimit → Bool
validate_individual_limit l =
    validate_text l.limit 64 false
    && validate_text l.used 64 false
    && is_within (pos 0) (pos 100) l.remaining_percent
    && is_within (pos 1) last_timestamp l.resets_at

-- `RateLimit.validate`
unfoldable pub validate_limit : RateLimit → Bool
validate_limit l =
    validate_text l.id 128 false
    && absent_or (λ name. validate_text name 128 true) l.name
    && absent_or (λ plan_type. validate_text plan_type 128 true) l.plan_type
    && absent_or (λ reached_type. validate_text reached_type 128 true) l.reached_type
    && absent_or validate_window l.primary
    && absent_or validate_window l.secondary
    && absent_or validate_credits l.credits
    && absent_or validate_individual_limit l.individual_limit

-- The loop over the limits; `seen` is the map of their ids.
unfoldable pub validate_limits : List (Text × Bool) → List RateLimit → Bool
validate_limits seen [] = true
validate_limits seen (l ∷ ls) =
    let rest = validate_limits (insert l.id true seen) ls in
    if not (validate_limit l)
    then false
    else if not (is_absent (lookup l.id seen))
    then false
    else rest

-- The tests of one thread, but for its id's being new.
unfoldable pub validate_thread : Text → Text → ℤ → ℤ → Bool
validate_thread thread_id task_name created_at updated_at =
    validate_text thread_id 128 false
    && validate_text task_name max_task_name_bytes false
    && is_within (pos 0) last_timestamp created_at
    && is_within (pos 0) last_timestamp updated_at
    && not (
        not (eqb_ℤ created_at (pos 0))
        && not (eqb_ℤ updated_at (pos 0))
        && ltb_ℤ updated_at created_at)

-- The loops over the recent and over the runtime threads.
unfoldable pub validate_recent : List (Text × Bool) → List RecentThread → Bool
validate_recent seen [] = true
validate_recent seen (t ∷ ts) =
    let rest = validate_recent (insert t.thread_id true seen) ts in
    if not (validate_thread t.thread_id t.task_name t.created_at t.updated_at)
    then false
    else if not (is_absent (lookup t.thread_id seen))
    then false
    else rest

unfoldable pub validate_runtime : List (Text × Bool) → List RuntimeThread → Bool
validate_runtime seen [] = true
validate_runtime seen (t ∷ ts) =
    let rest = validate_runtime (insert t.thread_id true seen) ts in
    if not (validate_thread t.thread_id t.task_name t.created_at t.updated_at)
    then false
    else if not (is_absent (lookup t.thread_id seen))
    then false
    else rest

-- The version, and the time of its observation.
unfoldable pub validate_version : Snapshot → Bool
validate_version s =
    if not (text_beq s.codex_version (sanitize_codex_version s.codex_version))
    then false
    else if is_empty s.codex_version
    then is_absent s.codex_version_observed_at
    else elim (s.codex_version_observed_at) [
      | none ↦ false
      | some observed_at ↦ not (is_zero observed_at) && nat_beq observed_at s.observed_at
    ]

unfoldable pub is_allowed_error : Text → Bool
is_allowed_error e =
    is_empty e
    || text_beq e (text "awaiting_collector")
    || text_beq e (text "auth_unavailable")
    || text_beq e (text "codex_unavailable")
    || text_beq e (text "protocol_error")
    || text_beq e (text "rate_limit_read_failed")
    || text_beq e (text "publish_failed")

-- A snapshot that submits nothing beside its account.
unfoldable pub submits_nothing : Snapshot → Bool
submits_nothing s =
    is_absent s.main_usage
    && is_absent s.reset_credits_available
    && is_absent s.lifetime_tokens
    && not s.lifetime_tokens_read
    && nat_beq (length s.limits) 0
    && nat_beq (length s.recent_threads) 0
    && not s.recent_threads_read
    && nat_beq (length s.runtime_threads) 0
    && not s.runtime_threads_read

-- The second `switch` over the state.
unfoldable pub validate_state : Snapshot → Bool
validate_state s = elim (s.state) [
  | ok ↦ elim (s.account) [
    | none ↦ false
    | some account ↦
        text_beq account.kind (text "chatgpt")
        && not (is_absent account.email)
        && absent_or (λ email. not (is_empty (trim_space email))) account.email
        && not (is_empty (trim_space account.plan_type))
        && is_empty s.error_category
  ]
  | api_key ↦ elim (s.account) [
    | none ↦ false
    | some account ↦
        text_beq account.kind (text "apiKey") && submits_nothing s && is_empty s.error_category
  ]
  | signed_out ↦ is_absent s.account && submits_nothing s && is_empty s.error_category
  | unavailable ↦ is_absent s.account && submits_nothing s && not (is_empty s.error_category)
  | unknown _ ↦ false
]

unfoldable pub validate_account : Account → Bool
validate_account a =
    validate_text a.kind 32 false
    && validate_text a.plan_type 64 true
    && absent_or (λ email. validate_text email 320 true) a.email

-- The canonical weekly window.
unfoldable pub validate_main_usage : Time → Window → Bool
validate_main_usage observed_at w =
    validate_window w
    && (elim (w.window_duration_mins) [ none ↦ false | some mins ↦ eqb_ℤ mins (pos 10_080) ])
    && (elim (w.resets_at) [
      | none ↦ false
      | some resets_at ↦
          ltb_ℤ (unix observed_at) resets_at && ltb_ℤ (pos 0) (sub_int64 resets_at (pos 604_800))
    ])

-- `Validate`; `now` is the clock's reading.
unfoldable pub validate_snapshot : Time → Snapshot → Bool
validate_snapshot now s =
    eqb_ℤ s.schema_version schema_version
    && validate_text s.username 64 false
    && validate_version s
    && is_allowed_error s.error_category
    && not (is_zero s.observed_at)
    && leb s.observed_at (now + 300 * second)
    && validate_state s
    && absent_or validate_account s.account
    && leb (length s.limits) 32
    && absent_or (is_within (pos 0) max_reset_credits_available) s.reset_credits_available
    && absent_or (is_within (pos 0) max_lifetime_tokens) s.lifetime_tokens
    && (is_absent s.lifetime_tokens || s.lifetime_tokens_read)
    && absent_or (validate_main_usage s.observed_at) s.main_usage
    && validate_limits [] s.limits
    && leb (length s.recent_threads) max_recent_threads
    && (nat_beq (length s.recent_threads) 0 || s.recent_threads_read)
    && validate_recent [] s.recent_threads
    && leb (length s.runtime_threads) max_runtime_threads
    && (nat_beq (length s.runtime_threads) 0 || s.runtime_threads_read)
    && validate_runtime [] s.runtime_threads
