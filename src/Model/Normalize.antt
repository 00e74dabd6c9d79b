-- ===== src/Model/Normalize.antt =====
-- internal/model/model.go: `Normalize`, and that it does its work at once.
use unibe_clan.Base.{
  ◌≡◌, refl, ap, ap₂, ◌&&◌, Option, none, some, List, [], ◌∷◌, arith, if◌then◌else◌,
}
use unibe_clan.Base.Int.{ℤ, pos, ◌-ℤ◌, -ℤ_parts, +ℤ_parts, ltb_ℤ}
use unibe_clan.Model.{Window, IndividualLimit, RateLimit, Snapshot}
use unibe_clan.Model.Validate.{
  schema_version, validate_window, is_within, absent_or, last_timestamp,
}

unfoldable pub clamp_percent : ℤ → ℤ
clamp_percent v = if ltb_ℤ v (pos 0) then pos 0 else if ltb_ℤ (pos 100) v then pos 100 else v

unfoldable pub normalize_window : Window → Window
normalize_window w = record w {
  used_percent = clamp_percent w.used_percent;
  remaining_percent = pos 100 -ℤ clamp_percent w.used_percent;
}

abbrev pub if_present {ℓ} : {A : Type ℓ} → (A → A) → Option A → Option A
if_present f none = none
if_present f (some a) = some (f a)

unfoldable pub normalize_limit : RateLimit → RateLimit
normalize_limit l = record l {
  primary = if_present normalize_window l.primary;
  secondary = if_present normalize_window l.secondary;
  individual_limit =
      if_present
        (λ (i : IndividualLimit). record i {
          remaining_percent = clamp_percent i.remaining_percent;
        })
        l.individual_limit;
}

unfoldable pub normalize_limits : List RateLimit → List RateLimit
normalize_limits [] = []
normalize_limits (l ∷ ls) = normalize_limit l ∷ normalize_limits ls

-- `Normalize`. A nil slice of limits is the empty list here already.
unfoldable pub normalize : Snapshot → Snapshot
normalize s = record s {
  schema_version = schema_version;
  main_usage = if_present normalize_window s.main_usage;
  limits = normalize_limits s.limits;
}

clamp_percent-clamp_percent : (v : ℤ) → clamp_percent (clamp_percent v) ≡ clamp_percent v
unfolding clamp_percent
clamp_percent-clamp_percent v = ground arith

normalize_window-normalize_window :
    (w : Window) → normalize_window (normalize_window w) ≡ normalize_window w
unfolding normalize_window
normalize_window-normalize_window w =
    ap (λ v. record w { used_percent = v; remaining_percent = pos 100 -ℤ v })
      (clamp_percent-clamp_percent w.used_percent)

if_present_twice {ℓ} :
    {A : Type ℓ} (f : A → A) (o : Option A)
    → ((a : A) → f (f a) ≡ f a)
    → if_present f (if_present f o) ≡ if_present f o
if_present_twice f none h = refl
if_present_twice f (some a) h = ap some (h a)

-- A normalized window passes its validation exactly if its duration and its reset do: normalizing puts
-- the percentages in range and makes them total 100.
pub normalize_window_valid :
    (w : Window)
    → validate_window (normalize_window w) ≡ (
        absent_or (is_within (pos 1) (pos 5_256_000)) w.window_duration_mins
        && absent_or (is_within (pos 1) last_timestamp) w.resets_at)
unfolding validate_window normalize_window clamp_percent is_within
normalize_window_valid w = ground (
  arith,
  -ℤ_parts (pos 100) (clamp_percent w.used_percent),
  +ℤ_parts (clamp_percent w.used_percent) (pos 100 -ℤ clamp_percent w.used_percent),
)

normalize_limit-normalize_limit :
    (l : RateLimit) → normalize_limit (normalize_limit l) ≡ normalize_limit l
unfolding normalize_limit
normalize_limit-normalize_limit l =
    let primary = if_present_twice normalize_window l.primary normalize_window-normalize_window in
    let secondary =
      if_present_twice normalize_window l.secondary normalize_window-normalize_window in
    let individual =
      if_present_twice
        (λ (i : IndividualLimit). record i {
          remaining_percent = clamp_percent i.remaining_percent;
        })
        l.individual_limit
        (λ i.
          ap (λ v. record i { remaining_percent = v })
            (clamp_percent-clamp_percent i.remaining_percent)) in
    rw (primary, secondary, individual) refl

normalize_limits-normalize_limits :
    (ls : List RateLimit) → normalize_limits (normalize_limits ls) ≡ normalize_limits ls
unfolding normalize_limits
normalize_limits-normalize_limits [] = refl
normalize_limits-normalize_limits (l ∷ ls) =
    ap₂ (λ m ms. m ∷ ms) (normalize_limit-normalize_limit l) (normalize_limits-normalize_limits ls)

-- Normalizing a snapshot that was normalized changes nothing.
pub normalize-normalize : (s : Snapshot) → normalize (normalize s) ≡ normalize s
unfolding normalize
normalize-normalize s =
    rw
      (
        if_present_twice normalize_window s.main_usage normalize_window-normalize_window,
        normalize_limits-normalize_limits s.limits,
      )
      refl
