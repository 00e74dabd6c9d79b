-- ===== src/Model/Names/Safe.antt =====
-- A sanitized task name passes the validation of names.
use unibe_clan.Base.{
  ℕ, ◌+◌, ◌≤◌, ◌≡◌, refl, sym, ap, ◌∙◌, inl, inr, Bool, true, false, not, [], ◌∷◌, reverse, all,
  all-reverse, arith, Bool-cases,
}
use mathlib.Core.List.{reverse-reverse}
use unibe_clan.Base.Keys.{Text}
use unibe_clan.Base.Unicode.{
  byte_len, rune_len, trim_left, trim_space, is_space, byte_len-reverse, is_control, is_format,
  in_ranges, is_surrogate, is_private_use,
}
use unibe_clan.Model.Names.{
  is_empty, unsafe_display_rune, validate_text, display_name, fields, join, sanitize_task_name,
  codex_task, max_task_name_bytes,
}

all-trim_left : (p : ℕ → Bool) (s : Text) → all p s ≡ true → all p (trim_left s) ≡ true
unfolding all trim_left
all-trim_left p [] h = refl
all-trim_left p (c ∷ cs) h = ground (arith, all-trim_left p cs)

all-trim_space : (p : ℕ → Bool) (s : Text) → all p s ≡ true → all p (trim_space s) ≡ true
unfolding trim_space
all-trim_space p s h = all-reverse p _ (all-trim_left p _ (all-reverse p _ (all-trim_left p s h)))

byte_len-trim_left-le : (s : Text) → byte_len (trim_left s) ≤ byte_len s
unfolding byte_len trim_left
byte_len-trim_left-le [] = omega arith
byte_len-trim_left-le (c ∷ cs) = ground (arith, byte_len-trim_left-le cs)

byte_len-trim_space-le : (s : Text) → byte_len (trim_space s) ≤ byte_len s
unfolding trim_space
byte_len-trim_space-le s = omega (
  arith,
  byte_len-reverse (trim_left (reverse (trim_left s))),
  byte_len-trim_left-le (reverse (trim_left s)),
  byte_len-reverse (trim_left s),
  byte_len-trim_left-le s,
)

-- What is left of the spaces has none at its left end.
spaces-trim_left : (s : Text) → all is_space (trim_left s) ≡ true → trim_left s ≡ []
unfolding all trim_left
spaces-trim_left [] h = refl
spaces-trim_left (c ∷ cs) h = ground (arith, spaces-trim_left cs)

trim_left_spaces : (s : Text) → trim_left s ≡ [] → all is_space s ≡ true
unfolding all trim_left
trim_left_spaces [] h = refl
trim_left_spaces (c ∷ cs) h = ground (arith, trim_left_spaces cs)

reverse_empty : (s : Text) → reverse s ≡ [] → s ≡ []
reverse_empty s h = sym (reverse-reverse s) ∙ ap reverse h

trim_space_spaces : (s : Text) → trim_space s ≡ [] → all is_space s ≡ true
unfolding trim_space
trim_space_spaces s h =
    let left = trim_left s in
    let spaces = trim_left_spaces (reverse left) (reverse_empty _ h) in
    let back : all is_space left ≡ true =
      rw (sym (reverse-reverse left)) (all-reverse is_space (reverse left) spaces) in
    trim_left_spaces s (spaces-trim_left s back)

-- Trimming what was trimmed leaves something, if there was something.
trim_space-trim_space : (s : Text) → trim_space (trim_space s) ≡ [] → trim_space s ≡ []
unfolding trim_space
trim_space-trim_space s h =
    let inner = trim_left (reverse (trim_left s)) in
    let spaces = trim_space_spaces (reverse inner) h in
    let back : all is_space inner ≡ true =
      rw (sym (reverse-reverse inner)) (all-reverse is_space (reverse inner) spaces) in
    ap reverse (spaces-trim_left (reverse (trim_left s)) back)

display_name-safe :
    (written : ℕ) (s : Text)
    → all (λ c. not (unsafe_display_rune c)) (display_name written s) ≡ true
unfolding all display_name
display_name-safe written [] = refl
display_name-safe written (c ∷ cs) =
    ground (arith, display_name-safe written cs, display_name-safe (written + rune_len c) cs)

display_name-bounded :
    (written : ℕ) (s : Text)
    → written ≤ max_task_name_bytes
    → written + byte_len (display_name written s) ≤ max_task_name_bytes
unfolding byte_len display_name
display_name-bounded written [] h = omega (arith, h)
display_name-bounded written (c ∷ cs) h =
    ground (arith, display_name-bounded written cs, display_name-bounded (written + rune_len c) cs)

codex_task_valid : validate_text codex_task max_task_name_bytes false ≡ true
unfolding validate_text trim_space trim_left byte_len all unsafe_display_rune is_space is_control
    is_format in_ranges is_surrogate is_private_use
codex_task_valid = refl

trimmed_valid :
    (s : Text)
    → all (λ c. not (unsafe_display_rune c)) s ≡ true
    → byte_len s ≤ max_task_name_bytes
    → is_empty (trim_space s) ≡ false
    → validate_text (trim_space s) max_task_name_bytes false ≡ true
unfolding validate_text
trimmed_valid s safe short name = ground (
  arith,
  all-trim_space (λ c. not (unsafe_display_rune c)) s safe,
  byte_len-trim_space-le s,
  trim_space-trim_space s,
)

-- Whatever the name that Codex reports, the sanitized one passes the validation of task names: it is
-- not blank, has 96 bytes at most, and holds no character that is unsafe to display.
pub sanitize_task_name_valid :
    (value : Text) → validate_text (sanitize_task_name value) max_task_name_bytes false ≡ true
unfolding sanitize_task_name
sanitize_task_name_valid value =
    let collapsed = join (fields [] value) in
    let shown = display_name 0 collapsed in
    elim (Bool-cases (is_empty collapsed)) [
      | inl blank ↦ rw (blank, sanitize_task_name) codex_task_valid
      | inr something ↦ elim (Bool-cases (is_empty (trim_space shown))) [
        | inl blank ↦ rw (something, blank, sanitize_task_name) codex_task_valid
        | inr name ↦
            rw (something, name, sanitize_task_name)
              (trimmed_valid shown (display_name-safe 0 collapsed)
                (omega (arith, display_name-bounded 0 collapsed (omega arith))) name)
      ]
    ]
