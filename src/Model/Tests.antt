-- ===== src/Model/Tests.antt =====
-- The model's theorems on a concrete snapshot.
use unibe_clan.Base.{◌+◌, ◌*◌, ◌≡◌, refl, true, false, ◌&&◌, none, some, [], ◌∷◌, all}
use unibe_clan.Base.Keys.{text_beq}
use unibe_clan.Base.Int.{pos, sub_int64, wrap_int64, ◌+ℤ◌, ◌-ℤ◌}
use unibe_clan.Base.Map.{insert, lookup}
use unibe_clan.Base.Time.{Time, second, unix}
use unibe_clan.Base.Unicode.{
  text, trim_space, is_space, byte_len, is_control, is_format, is_surrogate, is_private_use,
  in_ranges, trim_left,
}
use unibe_clan.Model.{ok, Window, RateLimit, RecentThread, RuntimeThread, Snapshot}
use unibe_clan.Model.Names.{
  validate_text, sanitize_task_name, sanitize_codex_version, matches_version, version_tag,
  version_next, version_number, span, is_digit, is_tag_char, is_alphanumeric, join, fields,
  display_name, unsafe_display_rune, max_task_name_bytes,
}
use unibe_clan.Model.Names.Safe.{sanitize_task_name_valid}
use unibe_clan.Model.Validate.{
  validate_snapshot, validate_window, validate_state, validate_account, validate_main_usage,
  validate_limits, validate_limit, validate_recent, validate_runtime, validate_version,
  is_allowed_error, submits_nothing, absent_or, is_within, last_timestamp,
}
use unibe_clan.Model.Validate.Accepted.{DifferBy, accepted_ids_differ}
use unibe_clan.Model.Normalize.{
  normalize, normalize_window, normalize_limits, normalize_limit, clamp_percent,
  normalize_window_valid,
}

program : Unit {0}
unfolding validate_snapshot validate_window validate_text validate_state validate_account
    validate_main_usage validate_limits validate_limit validate_recent validate_runtime
    validate_version is_allowed_error is_within submits_nothing normalize normalize_window
    normalize_limits normalize_limit clamp_percent sanitize_task_name sanitize_codex_version
    matches_version version_tag version_next version_number span is_digit is_tag_char
    is_alphanumeric join fields display_name unsafe_display_rune text_beq trim_space is_space
    byte_len all is_control is_format is_surrogate is_private_use in_ranges trim_left sub_int64
    wrap_int64 ◌+ℤ◌ ◌-ℤ◌ insert lookup unix
program = tt

abbrev noon : Time
noon = (62_135_596_800 + 1_700_000_000) * second

abbrev week : Window
week = record {
  used_percent = pos 140;
  remaining_percent = pos 0;
  window_duration_mins = some (pos 10_080);
  resets_at = some (pos 1_700_259_200);
}

abbrev limit : RateLimit
limit = record {
  id = text "codex";
  name = none;
  plan_type = none;
  primary = some week;
  secondary = none;
  credits = none;
  individual_limit = none;
  spend_control_reached = none;
  reached_type = none;
}

abbrev collected : Snapshot
collected = record {
  schema_version = pos 2;
  username = text "alice";
  codex_version = [];
  codex_version_observed_at = none;
  state = ok;
  account =
      some (record { kind = text "chatgpt"; email = some (text "a@b.ch"); plan_type = text "pro" });
  main_usage = some week;
  reset_credits_available = none;
  lifetime_tokens = none;
  lifetime_tokens_read = false;
  limits = limit ∷ [];
  recent_threads = [];
  recent_threads_read = false;
  runtime_threads = [];
  runtime_threads_read = false;
  observed_at = noon;
  error_category = [];
}

sanitize_task_name_valid_example :
    validate_text (sanitize_task_name (text "  fix   the build ")) max_task_name_bytes false ≡ true
sanitize_task_name_valid_example = sanitize_task_name_valid (text "  fix   the build ")

normalize_window_valid_example : validate_window (normalize_window week) ≡ (
    absent_or (is_within (pos 1) (pos 5_256_000)) (some (pos 10_080))
    && absent_or (is_within (pos 1) last_timestamp) (some (pos 1_700_259_200)))
normalize_window_valid_example = normalize_window_valid week

accepted : validate_snapshot noon (normalize collected) ≡ true
unfolding program
accepted = refl

accepted_ids_differ_example :
    DifferBy (λ (l : RateLimit). l.id) (normalize collected).limits
    × DifferBy (λ (t : RecentThread). t.thread_id) (normalize collected).recent_threads
    × DifferBy (λ (t : RuntimeThread). t.thread_id) (normalize collected).runtime_threads
accepted_ids_differ_example = accepted_ids_differ noon (normalize collected) accepted

version_accepted : sanitize_codex_version (text "0.46.0-alpha.4") ≡ text "0.46.0-alpha.4"
unfolding program
version_accepted = refl

version_refused : matches_version (text "0.46") ≡ false
unfolding program
version_refused = refl

name_collapsed : sanitize_task_name (text "  fix   the build ") ≡ text "fix the build"
unfolding program
name_collapsed = refl
