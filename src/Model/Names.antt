-- ===== src/Model/Names.antt =====
-- internal/model/model.go: the texts that a snapshot may show. A validation answers whether its error
-- is nil. Strings are well-formed UTF-8.
pub mod Safe
use unibe_clan.Base.{
  ℕ, ◌+◌, Bool, true, false, not, ◌&&◌, ◌||◌, List, [], ◌∷◌, ◌++◌, all, length, if◌then◌else◌, ltb,
  leb,
}
use unibe_clan.Base.Keys.{Text, text_beq}
use unibe_clan.Base.Unicode.{
  text, byte_len, rune_len, trim_space, is_space, is_between, is_control, is_format, is_surrogate,
  is_private_use,
}

abbrev pub max_task_name_bytes : ℕ
max_task_name_bytes = 96

abbrev pub max_codex_version_bytes : ℕ
max_codex_version_bytes = 64

unfoldable pub unsafe_display_rune : ℕ → Bool
unsafe_display_rune c = is_control c || is_format c || is_surrogate c || is_private_use c

abbrev pub is_empty : Text → Bool
is_empty [] = true
is_empty (c ∷ cs) = false

unfoldable pub validate_text : Text → ℕ → Bool → Bool
validate_text value max allow_empty =
    if not allow_empty && is_empty (trim_space value)
    then false
    else if ltb max (byte_len value)
    then false
    else all (λ c. not (unsafe_display_rune c)) value

-- `strings.Fields`; `word` is the field that is being read.
unfoldable pub fields : Text → Text → List Text
fields word [] = if is_empty word then [] else word ∷ []
fields word (c ∷ cs) =
    let next = fields [] cs in
    let longer = fields (word ++ (c ∷ [])) cs in
    if is_space c then (if is_empty word then next else word ∷ next) else longer

-- `strings.Join` with a space.
unfoldable pub join : List Text → Text
join [] = []
join (w ∷ []) = w
join (w ∷ v ∷ ws) = w ++ (b' ' ∷ join (v ∷ ws))

-- The loop of `SanitizeTaskName`; `written` is the builder's length.
unfoldable pub display_name : ℕ → Text → Text
display_name written [] = []
display_name written (c ∷ cs) =
    let skipped = display_name written cs in
    let longer = display_name (written + rune_len c) cs in
    if unsafe_display_rune c
    then skipped
    else if ltb max_task_name_bytes (written + rune_len c)
    then []
    else c ∷ longer

abbrev pub codex_task : Text
codex_task = text "Codex task"

unfoldable pub sanitize_task_name : Text → Text
sanitize_task_name value =
    let collapsed = join (fields [] value) in
    let name = trim_space (display_name 0 collapsed) in
    if is_empty collapsed then codex_task else if is_empty name then codex_task else name

unfoldable pub is_digit : ℕ → Bool
is_digit = is_between b'0' b'9'

unfoldable pub is_alphanumeric : ℕ → Bool
unfolding is_digit
is_alphanumeric c = is_digit c || is_between b'A' b'Z' c || is_between b'a' b'z' c

unfoldable pub is_tag_char : ℕ → Bool
unfolding is_alphanumeric is_digit
is_tag_char c = is_alphanumeric c || is_between b'-' b'.' c || is_between b'_' b'_' c

-- The longest prefix of characters that pass, by its length, and the rest.
unfoldable pub span : (ℕ → Bool) → Text → ℕ × Text
span p [] = (0, [])
span p (c ∷ cs) = let (n, rest) = span p cs in if p c then (n + 1, rest) else (0, c ∷ cs)

-- `[0-9]{1,6}`, which no digit follows.
unfoldable pub version_number : Text → Bool × Text
version_number s = let (n, rest) = span is_digit s in (is_between 1 6 n, rest)

-- A point, and a number.
unfoldable pub version_next : Bool × Text → Bool × Text
version_next (fine, []) = (false, [])
version_next (fine, c ∷ cs) =
    let (number, rest) = version_number cs in (fine && is_between b'.' b'.' c && number, rest)

-- `(?:<mark>[0-9A-Za-z][0-9A-Za-z._-]{0,31})?`, which no character of a tag follows.
unfoldable pub version_tag : ℕ → Bool × Text → Bool × Text
version_tag mark (fine, []) = (fine, [])
version_tag mark (fine, c ∷ []) = (fine, c ∷ [])
version_tag mark (fine, c ∷ d ∷ ds) =
    let (n, rest) = span is_tag_char ds in
    if is_between mark mark c
    then (fine && is_alphanumeric d && leb n 31, rest)
    else (fine, c ∷ d ∷ ds)

-- `codexVersionPattern.MatchString`
unfoldable pub matches_version : Text → Bool
matches_version s =
    text_beq s (text "dev")
    || (let (fine, rest) =
          version_tag b'+' (version_tag b'-' (version_next (version_next (version_number s)))) in
        fine && is_empty rest)

unfoldable pub sanitize_codex_version : Text → Text
sanitize_codex_version value =
    if is_empty value
      || not (text_beq value (trim_space value))
      || ltb max_codex_version_bytes (byte_len value)
      || not (matches_version value)
    then []
    else value
