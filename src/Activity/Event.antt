-- ===== src/Activity/Event.antt =====
-- internal/activity/tracker.go: the event protocol and its validation.
pub mod Ids
use unibe_clan.Base.{
  ℕ, Bool, true, false, not, ◌&&◌, ◌||◌, Option, none, some, List, [], all, ltb, if◌then◌else◌,
}
use unibe_clan.Base.Keys.{Text, ◌==◌, nat_eq, text_eq}
use unibe_clan.Base.Int.{ℤ, pos, eqb_ℤ}
use unibe_clan.Base.Unicode.{byte_len, trim_space, is_between}

-- `ErrInvalidEvent` and `ErrUntrustedPeer`.
pub data ActivityError : Type 0 where
  invalid_event untrusted_peer : ActivityError

-- `Action` is a string in the source; `unknown` holds any other.
pub data Action : Type 0 where
  session_start start refresh end_turn end_session : Action
  unknown : Text → Action

pub record Event : Type 0 where
  pub schema_version : ℤ
  pub action : Action
  pub session_id : Text
  pub turn_id : Text

abbrev pub schema_version : ℕ
schema_version = 1

abbrev pub max_id_length : ℕ
max_id_length = 128

-- The `switch` in the loop of `validOpaqueID`.
unfoldable pub is_id_char : ℕ → Bool
is_id_char c =
    is_between b'a' b'z' c
    || is_between b'A' b'Z' c
    || is_between b'0' b'9' c
    || (c == b'-' || c == b'_' || c == b'.' || c == b':')

unfoldable pub valid_opaque_id : Text → Bool
valid_opaque_id value =
    if value == [] || ltb max_id_length (byte_len value) || not (trim_space value == value)
    then false
    else all is_id_char value

-- The loop of `validUsername` accepts what is not outside 0x21..0x7e.
unfoldable pub is_username_char : ℕ → Bool
is_username_char c = not (ltb c 0x21 || ltb 0x7e c)

unfoldable pub valid_username : Text → Bool
valid_username username =
    if username == [] || ltb 64 (byte_len username) || not (trim_space username == username)
    then false
    else all is_username_char username

abbrev reject_unless : Bool → Option ActivityError
reject_unless ok = if ok then none else some invalid_event

-- The `switch` of `Validate`.
validate_action : Action → Text → Option ActivityError
validate_action start turn_id = reject_unless (valid_opaque_id turn_id)
validate_action refresh turn_id = reject_unless (valid_opaque_id turn_id)
validate_action end_turn turn_id = reject_unless (valid_opaque_id turn_id)
validate_action session_start turn_id = reject_unless (turn_id == [])
validate_action end_session turn_id = reject_unless (turn_id == [])
validate_action (unknown a) turn_id = some invalid_event

-- `Event.Validate`; `none` is the nil error.
unfoldable pub validate : Event → Option ActivityError
unfolding validate_action
validate event =
    if not (eqb_ℤ event.schema_version (pos schema_version))
    then some invalid_event
    else if not (valid_opaque_id event.session_id)
    then some invalid_event
    else validate_action event.action event.turn_id
