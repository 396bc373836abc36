-- ===== src/Runtime/Atomic.antt =====
-- A transaction happens as a whole or not at all.
use kitchen_ops.Base.{◌≡◌, refl, Bool, true, false, Option, none, some, Bytes}
use kitchen_ops.Models.{Database}
use kitchen_ops.Runtime.{
  Services, Kitchen, Result, ok, err, Action, and_then, next_call, answer, call, commit_answer,
  finish, transaction,
}
use kitchen_ops.Runtime.Outcomes.{OnOk}

-- `P` holds of the result and the database, or there is an error and the database is `before`.
abbrev pub AllOrNothing :
    {F Q A : Type 0} → (A → Database F → Type 0) → Database F → Result A × Kitchen F Q → Type 0
AllOrNothing P before (ok a, s) = P a s.db
AllOrNothing P before (err e, s) = s.db ≡ before

module _ {F Q A : Type 0} (w : Services F Q) (P : A → Database F → Type 0) where
  finish_atomic :
      (before : Kitchen F Q) (r : Result A × Kitchen F Q)
      → OnOk (λ a t. P a t.db) r
      → AllOrNothing P before.db (finish w before r)
  finish_atomic before (err e, s) h = refl
  finish_atomic before (ok a, s) h = go s.aborted (w.fails s.calls)
    where
      go :
          (aborted : Bool) (failure : Option Bytes)
          → AllOrNothing P before.db (commit_answer aborted failure before a (next_call s))
      go true failure = refl
      go false none = h
      go false (some text) = refl

  pub transaction_atomic :
      (body : Action F Q A) (s : Kitchen F Q)
      → ((s' : Kitchen F Q) → s'.db ≡ s.db → OnOk (λ a t. P a t.db) (body s'))
      → AllOrNothing P s.db (transaction w body s)
  unfolding transaction call
  transaction_atomic body s h = go (w.fails s.calls)
    where
      go :
          (failure : Option Bytes)
          → AllOrNothing P s.db (
              and_then
                (answer failure (λ t. (t, record t { aborted = false })) (next_call s))
                (λ before t. finish w before (body t)))
      go none = finish_atomic (next_call s) _ (h _ refl)
      go (some text) = refl
