-- ===== src/Outbox/Delay.antt =====
-- The delay grows with the square of the attempts up to five minutes, until it wraps.
use kitchen_ops.Base.{ℕ, ◌-◌, ◌*◌, ◌%◌, ◌≤◌, ◌≡◌, pos, negsuc, min, arith}
use kitchen_ops.Runtime.{second}
use kitchen_ops.Outbox.{backoff, five_minutes, word_mod}

square_le : (a b : ℕ) → a ≤ b → a * a ≤ b * b
square_le a b h = grind arith

square_exact :
    (n : ℕ) → n * n ≤ 9223297444 → (n * n) % word_mod * second % word_mod ≡ n * n * second
square_exact n h = omega arith

-- For 1 to 96038 attempts the delay is the square of the attempts in seconds, and five minutes
-- where that is more.
pub backoff-eq-min :
    (n : ℕ) → 1 ≤ n → n ≤ 96038 → backoff n ≡ pos (min (n * n * second) five_minutes)
unfolding backoff
backoff-eq-min n l h = ground (arith, square_le n 96038 h, square_exact n)

-- From 96039 attempts, and up to 135818, the product has wrapped: the delay is negative, so that
-- the retry time lies in the past.
pub backoff_wraps : (n : ℕ) → 96039 ≤ n → n ≤ 135818 → (d : ℕ) × (backoff n ≡ negsuc d)
unfolding backoff
backoff_wraps n l h =
    (word_mod - n * n * second - 1, ground (arith, square_le n 135818 h, square_le 96039 n l))
