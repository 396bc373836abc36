-- ===== src/Runtime/Either.antt =====
-- Rules for actions of which an error is explained by the call that has failed.
use kitchen_ops.Base.{
  ℕ, suc, ◌+◌, ◌≡◌, ◌<◌, ◌≤◌, refl, Bool, true, false, Option, none, some, Bytes, arith,
}
use kitchen_ops.Runtime.{
  Services, Kitchen, Result, ok, err, Error, driver, Action, and_then, next_call, answer, answer_tx,
  call, on_tx, commit_answer, finish, transaction,
}

-- `P` holds of the result and the state, or the action has failed and `E` holds of the error and
-- the number of calls made.
abbrev pub OnEither :
    {F Q A : Type 0}
    → (Error → ℕ → Type 0)
    → (A → Kitchen F Q → Type 0)
    → Result A × Kitchen F Q
    → Type 0
OnEither E P (ok a, s) = P a s
OnEither E P (err e, s) = E e s.calls

-- When so many calls have been made, the last of them, or one of the `slack` before it, has failed
-- with the text of the error. After a failure a transaction makes one call more, its rollback.
abbrev pub HasFailed : {F Q : Type 0} → Services F Q → ℕ → Error → ℕ → Type 0
HasFailed w slack e calls =
    (n : ℕ) × (text : Bytes) × (w.fails n ≡ some text)
    × (e ≡ driver text)
    × (n < calls)
    × (calls ≤ n + 1 + slack)

failed_now :
    {F Q : Type 0} (w : Services F Q) (slack n : ℕ) (text : Bytes)
    → w.fails n ≡ some text
    → HasFailed w slack (driver text) (n + 1)
failed_now w slack n text failure = (n, text, failure, refl, omega arith, omega arith)

module _ {F Q A B : Type 0} (w : Services F Q) (slack : ℕ) (P : B → Kitchen F Q → Type 0) where
  pub on_tx-OnEither :
      (f : Kitchen F Q → A × Kitchen F Q) (k : A → Action F Q B) (s : Kitchen F Q)
      → s.aborted ≡ false
      → OnEither (HasFailed w slack) P (k (f (next_call s)).0 (f (next_call s)).1)
      → OnEither (HasFailed w slack) P (and_then (on_tx w f s) k)
  unfolding on_tx
  on_tx-OnEither f k s open_tx h = go s.aborted (w.fails s.calls) open_tx refl
    where
      go :
          (aborted : Bool) (failure : Option Bytes)
          → aborted ≡ false
          → w.fails s.calls ≡ failure
          → OnEither (HasFailed w slack) P (and_then (answer_tx aborted failure f (next_call s)) k)
      go true failure a failed = cc
      go false none a quiet = h
      go false (some text) a failed = failed_now w slack s.calls text failed

  pub call-OnEither :
      (f : Kitchen F Q → A × Kitchen F Q) (k : A → Action F Q B) (s : Kitchen F Q)
      → OnEither (HasFailed w slack) P (k (f (next_call s)).0 (f (next_call s)).1)
      → OnEither (HasFailed w slack) P (and_then (call w f s) k)
  unfolding call
  call-OnEither f k s h = go (w.fails s.calls) refl
    where
      go :
          (failure : Option Bytes)
          → w.fails s.calls ≡ failure
          → OnEither (HasFailed w slack) P (and_then (answer failure f (next_call s)) k)
      go none quiet = h
      go (some text) failed = failed_now w slack s.calls text failed

module _ {F Q A B : Type 0} (E : Error → ℕ → Type 0) (R : A → Kitchen F Q → Type 0)
    (P : B → Kitchen F Q → Type 0) where
  pub bind-OnEither :
      (r : Result A × Kitchen F Q) (k : A → Action F Q B)
      → OnEither E R r
      → ((a : A) (s : Kitchen F Q) → R a s → OnEither E P (k a s))
      → OnEither E P (and_then r k)
  bind-OnEither (ok a, s) k h next = next a s h
  bind-OnEither (err e, s) k h next = h

module _ {F Q A : Type 0} (w : Services F Q) (slack : ℕ) (P : A → Kitchen F Q → Type 0) where
  -- A call that stands last.
  pub call_last_either :
      (f : Kitchen F Q → A × Kitchen F Q) (s : Kitchen F Q)
      → P (f (next_call s)).0 (f (next_call s)).1
      → OnEither (HasFailed w slack) P (call w f s)
  unfolding call
  call_last_either f s h = go (w.fails s.calls) refl
    where
      go :
          (failure : Option Bytes)
          → w.fails s.calls ≡ failure
          → OnEither (HasFailed w slack) P (answer failure f (next_call s))
      go none quiet = h
      go (some text) failed = failed_now w slack s.calls text failed

  finish-OnEither :
      (before : Kitchen F Q) (r : Result A × Kitchen F Q)
      → OnEither (HasFailed w slack) (λ a t. (t.aborted ≡ false) × P a (next_call t)) r
      → OnEither (HasFailed w (suc slack)) P (finish w before r)
  finish-OnEither before (ok a, s) (open_tx, h) = go s.aborted (w.fails s.calls) open_tx refl
    where
      go :
          (aborted : Bool) (failure : Option Bytes)
          → aborted ≡ false
          → w.fails s.calls ≡ failure
          → OnEither
              (HasFailed w (suc slack))
              P
              (commit_answer aborted failure before a (next_call s))
      go true failure u failed = cc
      go false none u quiet = h
      go false (some text) u failed = failed_now w (suc slack) s.calls text failed
  finish-OnEither before (err e, s) (n, text, failure, same, below, near) =
      (n, text, failure, same, omega (arith, below), omega (arith, near))

  pub transaction-OnEither :
      (body : Action F Q A) (s : Kitchen F Q)
      → OnEither
          (HasFailed w slack)
          (λ a t. (t.aborted ≡ false) × P a (next_call t))
          (body (record (next_call s) { aborted = false }))
      → OnEither (HasFailed w (suc slack)) P (transaction w body s)
  unfolding transaction call
  transaction-OnEither body s h = go (w.fails s.calls) refl
    where
      go :
          (failure : Option Bytes)
          → w.fails s.calls ≡ failure
          → OnEither (HasFailed w (suc slack)) P (
              and_then
                (answer failure (λ t. (t, record t { aborted = false })) (next_call s))
                (λ before t. finish w before (body t)))
      go none quiet = finish-OnEither (next_call s) _ h
      go (some text) failed = failed_now w (suc slack) s.calls text failed
