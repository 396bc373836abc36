-- ===== src/Outbox.antt =====
-- internal/outbox/dispatcher.go: a dispatcher's settings, and the delay before an event is published
-- again.
pub mod Delay
pub mod Dispatch
pub mod Published
pub mod Progress
pub mod Loop
pub mod Batches
pub mod Drained
use kitchen_ops.Base.{
  ℕ, suc, ◌+◌, ◌-◌, ◌*◌, ◌/◌, ◌%◌, ◌^◌, Bool, true, false, ℤ, pos, negsuc, if◌then◌else◌, ltb,
}
use kitchen_ops.Runtime.{second}

-- The repository and the publisher are what the actions run on.
pub record Dispatcher : Type 0 where
  pub batch_size : ℕ
  pub interval : ℕ

unfoldable pub new_dispatcher : Dispatcher
new_dispatcher = record { batch_size = 100; interval = 300 * (second / 1000) }

abbrev pub word_mod : ℕ
word_mod = 2 ^ 64

-- An int64 by its bits.
abbrev pub signed : ℕ → ℤ
signed n = if ltb n (2 ^ 63) then pos n else negsuc (word_mod - n - 1)

-- d > n, for a duration d
abbrev pub exceeds : ℤ → ℕ → Bool
exceeds (pos d) n = ltb n d
exceeds (negsuc d) n = false

abbrev pub five_minutes : ℕ
five_minutes = 300 * second

-- time.Duration(attempt*attempt) * time.Second, both products in int64.
abbrev pub square_seconds : ℕ → ℤ
square_seconds attempt = signed ((attempt * attempt) % word_mod * second % word_mod)

-- The attempts of a row are counted up from 0.
unfoldable pub backoff : ℕ → ℤ
backoff attempt =
    let d = square_seconds (if ltb attempt 1 then 1 else attempt) in
    if exceeds d five_minutes then pos five_minutes else d
