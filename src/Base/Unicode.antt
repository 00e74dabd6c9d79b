-- ===== src/Base/Unicode.antt =====
-- What the code takes from Go's packages strings, unicode and utf8, over a string's code points.
use Prim.Native.String.{String}
use Prim.Native.Char.{code}
use unibe_clan.Base.{
  ℕ, ◌+◌, ◌≡◌, refl, Bool, true, false, not, ◌&&◌, ◌||◌, List, [], ◌∷◌, ◌++◌, reverse, arith, all,
  ltb, leb, if◌then◌else◌, all-reverse,
}
use mathlib.Core.List.{reverse-reverse, reverse-cons}
use unibe_clan.Base.Keys.{Text}

-- A string literal, as the model's string.
abbrev pub text : String → Text
text String.[] = []
text (String.◌∷◌ letter rest) = let point = code letter in point ∷ text rest

-- The bytes of the UTF-8 encoding of a code point.
abbrev pub rune_len : ℕ → ℕ
rune_len c = if ltb c 0x80 then 1 else if ltb c 0x800 then 2 else if ltb c 0x10000 then 3 else 4

-- `len(s)`, in bytes.
unfoldable pub byte_len : Text → ℕ
byte_len [] = 0
byte_len (c ∷ cs) = rune_len c + byte_len cs

abbrev pub is_between : ℕ → ℕ → ℕ → Bool
is_between lo hi c = leb lo c && leb c hi

-- One of the ranges of code points holds `c`.
unfoldable pub in_ranges : List (ℕ × ℕ) → ℕ → Bool
in_ranges [] c = false
in_ranges ((lo, hi) ∷ rs) c = is_between lo hi c || in_ranges rs c

-- `unicode.IsSpace` (White_Space).
unfoldable pub is_space : ℕ → Bool
unfolding in_ranges
is_space = in_ranges (
    (0x9, 0xd)
    ∷ (0x20, 0x20)
    ∷ (0x85, 0x85)
    ∷ (0xa0, 0xa0)
    ∷ (0x1680, 0x1680)
    ∷ (0x2000, 0x200a)
    ∷ (0x2028, 0x2029)
    ∷ (0x202f, 0x202f)
    ∷ (0x205f, 0x205f)
    ∷ (0x3000, 0x3000)
    ∷ [])

-- `unicode.IsControl` (category Cc).
unfoldable pub is_control : ℕ → Bool
is_control c = leb c 0x1f || is_between 0x7f 0x9f c

-- `unicode.Is(unicode.Cf, c)` (format characters), as of Unicode 15.
unfoldable pub is_format : ℕ → Bool
unfolding in_ranges
is_format = in_ranges (
    (0xad, 0xad)
    ∷ (0x600, 0x605)
    ∷ (0x61c, 0x61c)
    ∷ (0x6dd, 0x6dd)
    ∷ (0x70f, 0x70f)
    ∷ (0x890, 0x891)
    ∷ (0x8e2, 0x8e2)
    ∷ (0x180e, 0x180e)
    ∷ (0x200b, 0x200f)
    ∷ (0x202a, 0x202e)
    ∷ (0x2060, 0x2064)
    ∷ (0x2066, 0x206f)
    ∷ (0xfeff, 0xfeff)
    ∷ (0xfff9, 0xfffb)
    ∷ (0x110bd, 0x110bd)
    ∷ (0x110cd, 0x110cd)
    ∷ (0x13430, 0x1343f)
    ∷ (0x1bca0, 0x1bca3)
    ∷ (0x1d173, 0x1d17a)
    ∷ (0xe0001, 0xe0001)
    ∷ (0xe0020, 0xe007f)
    ∷ [])

-- `unicode.Is(unicode.Cs, c)` (surrogates) and `unicode.Is(unicode.Co, c)` (private use).
unfoldable pub is_surrogate : ℕ → Bool
is_surrogate = is_between 0xd800 0xdfff

unfoldable pub is_private_use : ℕ → Bool
is_private_use c =
    is_between 0xe000 0xf8ff c || is_between 0xf0000 0xffffd c || is_between 0x100000 0x10fffd c

unfoldable pub trim_left : Text → Text
trim_left [] = []
trim_left (c ∷ cs) = let rest = trim_left cs in if is_space c then rest else c ∷ cs

-- `strings.TrimSpace`.
unfoldable pub trim_space : Text → Text
unfolding trim_left
trim_space s = reverse (trim_left (reverse (trim_left s)))

-- A string without a space at its left end is left as it is.
trim_left_none : (s : Text) → all (λ c. not (is_space c)) s ≡ true → trim_left s ≡ s
unfolding trim_left all
trim_left_none [] h = refl
trim_left_none (c ∷ cs) h = ground arith

-- A string without white space is its own trimming.
pub trim_space_none : (s : Text) → all (λ c. not (is_space c)) s ≡ true → trim_space s ≡ s
unfolding trim_space
trim_space_none s h =
    rw (trim_left_none s h, trim_left_none (reverse s) (all-reverse (λ c. not (is_space c)) s h))
      (reverse-reverse s)

byte_len-append : (s t : Text) → byte_len (s ++ t) ≡ byte_len s + byte_len t
unfolding byte_len
byte_len-append [] t = omega arith
byte_len-append (c ∷ cs) t = omega (arith, byte_len-append cs t)

pub byte_len-reverse : (s : Text) → byte_len (reverse s) ≡ byte_len s
unfolding byte_len
byte_len-reverse [] = refl
byte_len-reverse (c ∷ cs) =
    rw (reverse-cons c cs)
      (omega (arith, byte_len-append (reverse cs) (c ∷ []), byte_len-reverse cs))
