-- ===== src/History/Adjustments/Jitter.antt =====
-- Adjustments that an older version recorded for mere jitter.
use unibe_clan.Base.{◌≡◌, refl, Bool, false, ◌&&◌, List, [], ◌∷◌, arith, All}
use unibe_clan.History.Windows.{reset_timestamps_equivalent}
use unibe_clan.History.Adjustments.{
  StoredAdjustment, reset_timestamp_changed, reason_beq, has_reason, sanitize_jitter,
}

-- The adjustment says that the timestamp changed, though by no more than the jitter.
abbrev pub is_jitter : StoredAdjustment → Bool
is_jitter s =
    has_reason reset_timestamp_changed s.adjustment.reasons
    && reset_timestamps_equivalent s.adjustment.before.resets_at s.adjustment.after.resets_at

pub sanitize_jitter-All :
    (ss : List StoredAdjustment) → All (λ s. is_jitter s ≡ false) (sanitize_jitter ss).0
unfolding sanitize_jitter has_reason reason_beq
sanitize_jitter-All [] = tt
sanitize_jitter-All (s ∷ ss) = ground (arith, sanitize_jitter-All ss)

sanitize_jitter_clean :
    (ss : List StoredAdjustment)
    → All (λ s. is_jitter s ≡ false) ss
    → sanitize_jitter ss ≡ (ss, false)
unfolding sanitize_jitter
sanitize_jitter_clean [] h = refl
sanitize_jitter_clean (s ∷ ss) h = ground (arith, sanitize_jitter_clean ss h.1)

-- Sanitizing an account's adjustments leaves none that calls jitter a changed timestamp, and doing it
-- again changes nothing.
pub sanitize_jitter_again :
    (ss : List StoredAdjustment)
    → All (λ s. is_jitter s ≡ false) (sanitize_jitter ss).0
      × (sanitize_jitter (sanitize_jitter ss).0 ≡ ((sanitize_jitter ss).0, false))
sanitize_jitter_again ss =
    (sanitize_jitter-All ss, sanitize_jitter_clean (sanitize_jitter ss).0 (sanitize_jitter-All ss))
