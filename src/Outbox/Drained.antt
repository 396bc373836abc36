-- ===== src/Outbox/Drained.antt =====
-- The ticks that empty the outbox.
use kitchen_ops.Base.{
  ℕ, zero, suc, ◌*◌, ◌≤◌, ◌≡◌, refl, true, false, Option, none, List, [], ◌∷◌, Bytes, arith,
}
use kitchen_ops.Models.{DomainEvent}
use kitchen_ops.Runtime.{Services, Kitchen, ok}
use kitchen_ops.Outbox.{Dispatcher}
use kitchen_ops.Outbox.Dispatch.{dispatch_once}
use kitchen_ops.Outbox.Progress.{row_limit}
use kitchen_ops.Outbox.Batches.{AreDue, unpublished, dispatch_once-After}
use kitchen_ops.Outbox.Loop.{Signal, cancelled, tick, run}

-- So many ticks, and then ctx.Done.
abbrev pub ticks : ℕ → List Signal
ticks zero = cancelled ∷ []
ticks (suc n) = tick ∷ ticks n

module _ {F Q : Type 0} (w : Services F Q) (unmarshal : Bytes → Option DomainEvent)
    (quiet : (n : ℕ) → w.fails n ≡ none) (t : ℕ) (passed : (n : ℕ) → t ≤ w.clock n)
    (free : (n k : ℕ) → w.locked n k ≡ false) where
  -- If no call fails, the payload of every row of the outbox can be read, no other transaction locks rows, and the clock
  -- has passed every retry time, then Run empties the outbox in as many ticks as there are
  -- batches to fill with the rows that wait, and returns when it is cancelled after them.
  -- Event ids are a primary key.
  pub run_drains :
      (d : Dispatcher) (rounds : ℕ) (s : Kitchen F Q)
      → AreDue unmarshal t s.db
      → unpublished s.db ≤ rounds * row_limit d
      → ((run w unmarshal d (ticks rounds) s).0 ≡ ok true)
        × (unpublished (run w unmarshal d (ticks rounds) s).1.db ≡ 0)
  unfolding run
  run_drains d zero s h few = (refl, omega arith)
  run_drains d (suc rounds) s h few =
      let (_, due, taken) = dispatch_once-After w unmarshal quiet t passed free d s h in
      run_drains d rounds (dispatch_once w unmarshal d s).1 due (ground arith)
