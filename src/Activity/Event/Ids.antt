-- ===== src/Activity/Event/Ids.antt =====
-- Which identifiers and events are accepted.
use unibe_clan.Base.{
  ℕ, ◌≤◌, ◌≡◌, ◌≢◌, ◌↔◌, ◌⊎◌, true, not, none, [], arith, all, All, All-map, all-All, all_of_All,
}
use unibe_clan.Base.Keys.{Text, text_beq_iff}
use unibe_clan.Base.Int.{pos, eqb_ℤ_iff}
use unibe_clan.Base.Unicode.{byte_len, trim_space, trim_space_none, is_space}
use unibe_clan.Activity.Event.{
  Event, Action, session_start, start, refresh, end_turn, end_session, unknown, is_id_char,
  valid_opaque_id, is_username_char, valid_username, validate, max_id_length, validate_action,
}

id_char-not-space : (c : ℕ) → is_id_char c ≡ true → not (is_space c) ≡ true
unfolding is_id_char is_space
id_char-not-space c h = ground arith

username_char-not-space : (c : ℕ) → is_username_char c ≡ true → not (is_space c) ≡ true
unfolding is_username_char is_space
username_char-not-space c h = ground arith

username_char_iff : (c : ℕ) → (is_username_char c ≡ true) ↔ ((0x21 ≤ c) × (c ≤ 0x7e))
unfolding is_username_char
username_char_iff c = ground arith

-- The test of the trimmed string adds nothing to the loop over the characters.
trimmed_id : (s : Text) → all is_id_char s ≡ true → trim_space s ≡ s
trimmed_id s h =
    trim_space_none s (all_of_All _ s (All-map _ _ id_char-not-space s (all-All is_id_char s h)))

trimmed_username : (s : Text) → all is_username_char s ≡ true → trim_space s ≡ s
trimmed_username s h =
    trim_space_none s
      (all_of_All _ s (All-map _ _ username_char-not-space s (all-All is_username_char s h)))

abbrev pub IdChar : ℕ → Type 0
IdChar c =
    ((b'a' ≤ c) × (c ≤ b'z'))
    ⊎ ((b'A' ≤ c) × (c ≤ b'Z'))
    ⊎ ((b'0' ≤ c) × (c ≤ b'9'))
    ⊎ (c ≡ b'-')
    ⊎ (c ≡ b'_')
    ⊎ (c ≡ b'.')
    ⊎ (c ≡ b':')

IdChar-iff : (c : ℕ) → (is_id_char c ≡ true) ↔ IdChar c
unfolding is_id_char
IdChar-iff c = ground arith

-- What an identifier on the wire looks like.
pub record OpaqueId (s : Text) : Type 0 where
  pub nonempty : s ≢ []
  pub short : byte_len s ≤ max_id_length
  pub plain : All IdChar s

-- A string passes `validOpaqueID` exactly when it is not empty, has 128 bytes at most and consists
-- of ASCII letters, digits, '-', '_', '.' and ':'.
pub valid_opaque_id_iff : (s : Text) → (valid_opaque_id s ≡ true) ↔ OpaqueId s
unfolding valid_opaque_id
valid_opaque_id_iff s = (sound, complete)
  where
    test : Text → Type 0
    test t = valid_opaque_id t ≡ true

    sound : test s → OpaqueId s
    sound h = record {
      nonempty = ground (arith, text_beq_iff s []);
      short = ground arith;
      plain = All-map _ IdChar (λ c. (IdChar-iff c).0) s (all-All is_id_char s (ground arith));
    }

    complete : OpaqueId s → test s
    complete o =
        let chars = all_of_All is_id_char s (All-map IdChar _ (λ c. (IdChar-iff c).1) s o.plain) in
        ground
          (arith, text_beq_iff s [], text_beq_iff (trim_space s) s, trimmed_id s chars, o.nonempty)

-- The turn that an event names: none where it concerns the session.
pub data TurnFits (turn_id : Text) : Action → Type 0 where
  starts : OpaqueId turn_id → TurnFits turn_id start
  refreshes : OpaqueId turn_id → TurnFits turn_id refresh
  ends : OpaqueId turn_id → TurnFits turn_id end_turn
  opens : turn_id ≡ [] → TurnFits turn_id session_start
  closes : turn_id ≡ [] → TurnFits turn_id end_session

pub record WellFormed (event : Event) : Type 0 where
  pub version : event.schema_version ≡ pos 1
  pub session : OpaqueId event.session_id
  pub turn : TurnFits event.turn_id event.action

TurnFits-of_validate : (a : Action) (t : Text) → validate_action a t ≡ none → TurnFits t a
unfolding validate_action
TurnFits-of_validate start t h = starts ((valid_opaque_id_iff t).0 (ground arith))
TurnFits-of_validate refresh t h = refreshes ((valid_opaque_id_iff t).0 (ground arith))
TurnFits-of_validate end_turn t h = ends ((valid_opaque_id_iff t).0 (ground arith))
TurnFits-of_validate session_start t h = opens (ground (arith, text_beq_iff t []))
TurnFits-of_validate end_session t h = closes (ground (arith, text_beq_iff t []))
TurnFits-of_validate (unknown a) t h = cc

validate_of_TurnFits : (t : Text) {a : Action} → TurnFits t a → validate_action a t ≡ none
unfolding validate_action
validate_of_TurnFits t (starts o) = ground (arith, (valid_opaque_id_iff t).1 o)
validate_of_TurnFits t (refreshes o) = ground (arith, (valid_opaque_id_iff t).1 o)
validate_of_TurnFits t (ends o) = ground (arith, (valid_opaque_id_iff t).1 o)
validate_of_TurnFits t (opens e) = ground (arith, text_beq_iff t [])
validate_of_TurnFits t (closes e) = ground (arith, text_beq_iff t [])

-- `Validate` accepts an event exactly when its schema version is 1, its session is an identifier,
-- and it names a turn by an identifier if it is about a turn, and no turn if it is about the session.
pub validate_iff : (event : Event) → (validate event ≡ none) ↔ WellFormed event
unfolding validate
validate_iff event = (sound, complete)
  where
    accepts : Event → Type 0
    accepts e = validate e ≡ none

    sound : accepts event → WellFormed event
    sound h = record {
      version = ground (arith, eqb_ℤ_iff event.schema_version (pos 1));
      session = (valid_opaque_id_iff event.session_id).0 (ground arith);
      turn = TurnFits-of_validate event.action event.turn_id (ground arith);
    }

    complete : WellFormed event → accepts event
    complete w = ground (
      arith,
      eqb_ℤ_iff event.schema_version (pos 1),
      (valid_opaque_id_iff event.session_id).1 w.session,
      validate_of_TurnFits event.turn_id w.turn,
    )

-- A user name passes `validUsername` exactly when it is not empty, has 64 bytes at most and
-- consists of visible ASCII characters.
pub valid_username_iff :
    (s : Text)
    → (valid_username s ≡ true)
      ↔ ((s ≢ []) × (byte_len s ≤ 64) × All (λ c. (0x21 ≤ c) × (c ≤ 0x7e)) s)
unfolding valid_username
valid_username_iff s = (sound, complete)
  where
    visible : ℕ → Type 0
    visible c = (0x21 ≤ c) × (c ≤ 0x7e)

    sound : valid_username s ≡ true → (s ≢ []) × (byte_len s ≤ 64) × All visible s
    sound h = (
      ground (arith, text_beq_iff s []),
      ground arith,
      All-map _ visible (λ c. (username_char_iff c).0) s
          (all-All is_username_char s (ground arith)),
    )

    complete : (s ≢ []) × (byte_len s ≤ 64) × All visible s → valid_username s ≡ true
    complete o =
        let chars =
          all_of_All is_username_char s (All-map visible _ (λ c. (username_char_iff c).1) s o.2) in
        ground
          (arith, text_beq_iff s [], text_beq_iff (trim_space s) s, trimmed_username s chars, o.0)
