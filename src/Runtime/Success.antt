-- ===== src/Runtime/Success.antt =====
-- Rules for actions that succeed, where no call fails.
use kitchen_ops.Base.{ℕ, ◌≡◌, refl, sym, subst, Bool, true, false, Option, none, some, Bytes}
use kitchen_ops.Models.{Database}
use kitchen_ops.Runtime.{
  Services, Kitchen, Error, Result, ok, err, Action, ◌>>=◌, and_then, or_throw, next_call,
  answer_tx, call, on_tx, commit_answer, finish, transaction,
}

-- The action has succeeded, and `P` holds of the result and the state.
abbrev pub OnDone : {F Q A : Type 0} → (A → Kitchen F Q → Type 0) → Result A × Kitchen F Q → Type 0
OnDone P (ok a, s) = P a s
OnDone P (err e, s) = ⊥

module _ {F Q A B : Type 0} (w : Services F Q) (quiet : (n : ℕ) → w.fails n ≡ none)
    (P : B → Kitchen F Q → Type 0) where
  pub on_tx-OnDone :
      (f : Kitchen F Q → A × Kitchen F Q) (k : A → Action F Q B) (s : Kitchen F Q)
      → s.aborted ≡ false
      → OnDone P (k (f (next_call s)).0 (f (next_call s)).1)
      → OnDone P (and_then (on_tx w f s) k)
  unfolding on_tx
  on_tx-OnDone f k s open_tx h = go s.aborted (w.fails s.calls) open_tx (quiet s.calls)
    where
      go :
          (aborted : Bool) (failure : Option Bytes)
          → aborted ≡ false
          → failure ≡ none
          → OnDone P (and_then (answer_tx aborted failure f (next_call s)) k)
      go true failure a n = cc
      go false none a n = h
      go false (some text) a n = cc

  pub call-OnDone :
      (f : Kitchen F Q → A × Kitchen F Q) (k : A → Action F Q B) (s : Kitchen F Q)
      → OnDone P (k (f (next_call s)).0 (f (next_call s)).1)
      → OnDone P (and_then (call w f s) k)
  unfolding call
  call-OnDone f k s h = rw (quiet s.calls) h

  -- A read of one row that is there.
  pub read_OnDone :
      (g : Kitchen F Q → Option A) (e : Error) (k : A → Action F Q B) (s : Kitchen F Q) (a : A)
      → s.aborted ≡ false
      → g (next_call s) ≡ some a
      → OnDone P (k a (next_call s))
      → OnDone P (and_then (and_then (on_tx w (λ t. (g t, t)) s) (λ row. or_throw row e)) k)
  unfolding on_tx
  read_OnDone g e k s a open_tx found h = go s.aborted (w.fails s.calls) open_tx (quiet s.calls)
    where
      go :
          (aborted : Bool) (failure : Option Bytes)
          → aborted ≡ false
          → failure ≡ none
          → OnDone P (
              and_then
                (and_then
                  (answer_tx aborted failure (λ t. (g t, t)) (next_call s))
                  (λ row. or_throw row e))
                k)
      go true failure u n = cc
      go false none u n = rw found h
      go false (some text) u n = cc

module _ {F Q A : Type 0} (w : Services F Q) (quiet : (n : ℕ) → w.fails n ≡ none)
    (P : A → Kitchen F Q → Type 0) where
  -- A statement that stands last.
  pub on_tx_last_done :
      (f : Kitchen F Q → A × Kitchen F Q) (s : Kitchen F Q)
      → s.aborted ≡ false
      → P (f (next_call s)).0 (f (next_call s)).1
      → OnDone P (on_tx w f s)
  unfolding on_tx
  on_tx_last_done f s open_tx h = go s.aborted (w.fails s.calls) open_tx (quiet s.calls)
    where
      go :
          (aborted : Bool) (failure : Option Bytes)
          → aborted ≡ false
          → failure ≡ none
          → OnDone P (answer_tx aborted failure f (next_call s))
      go true failure a n = cc
      go false none a n = h
      go false (some text) a n = cc

module _ {F Q A B : Type 0} (R : A → Kitchen F Q → Type 0) (P : B → Kitchen F Q → Type 0) where
  pub bind_OnDone :
      (r : Result A × Kitchen F Q) (k : A → Action F Q B)
      → OnDone R r
      → ((a : A) (s : Kitchen F Q) → R a s → OnDone P (k a s))
      → OnDone P (and_then r k)
  bind_OnDone (ok a, s) k h next = next a s h
  bind_OnDone (err e, s) k h next = absurd h

module _ {F Q A B : Type 0} (P : B → Kitchen F Q → Type 0) where
  pub or_throw-OnDone :
      (o : Option A) (e : Error) (k : A → Action F Q B) (s : Kitchen F Q) (a : A)
      → o ≡ some a
      → OnDone P (k a s)
      → OnDone P (and_then (or_throw o e s) k)
  or_throw-OnDone none e k s a found h = cc
  or_throw-OnDone (some b) e k s a found h =
      subst (λ o. OnDone P (and_then (or_throw o e s) k)) (sym found) h

module _ {F Q A B C : Type 0} (P : C → Kitchen F Q → Type 0) where
  pub assoc_OnDone :
      (r : Result A × Kitchen F Q) (f : A → Action F Q B) (k : B → Action F Q C)
      → OnDone P (and_then r (λ a. f a >>= k))
      → OnDone P (and_then (and_then r f) k)
  assoc_OnDone (ok a, s) f k h = h
  assoc_OnDone (err e, s) f k h = h

module _ {F Q A : Type 0} (P R : A → Kitchen F Q → Type 0) where
  pub OnDone-map :
      (r : Result A × Kitchen F Q)
      → OnDone P r
      → ((a : A) (s : Kitchen F Q) → P a s → R a s)
      → OnDone R r
  OnDone-map (ok a, s) h f = f a s h
  OnDone-map (err e, s) h f = h

-- The transaction is open: no statement of it has failed.
abbrev pub IsOpen : {F Q A : Type 0} → A → Kitchen F Q → Type 0
IsOpen a s = s.aborted ≡ false

module _ {F Q A : Type 0} (w : Services F Q) (quiet : (n : ℕ) → w.fails n ≡ none)
    (P : A → Database F → Type 0) where
  finish_done :
      (before : Kitchen F Q) (r : Result A × Kitchen F Q)
      → OnDone (λ a t. IsOpen a t × P a t.db) r
      → OnDone (λ a t. P a t.db) (finish w before r)
  finish_done before (ok a, s) (open_tx, h) = go s.aborted (w.fails s.calls) open_tx (quiet s.calls)
    where
      go :
          (aborted : Bool) (failure : Option Bytes)
          → aborted ≡ false
          → failure ≡ none
          → OnDone (λ a' t. P a' t.db) (commit_answer aborted failure before a (next_call s))
      go true failure u n = cc
      go false none u n = h
      go false (some text) u n = cc
  finish_done before (err e, s) h = h

  -- A transaction whose body succeeds does, with the body's effect.
  pub transaction_done :
      (body : Action F Q A) (s : Kitchen F Q)
      → ((s' : Kitchen F Q)
          → s'.db ≡ s.db
          → s'.aborted ≡ false
          → OnDone (λ a t. IsOpen a t × P a t.db) (body s'))
      → OnDone (λ a t. P a t.db) (transaction w body s)
  unfolding transaction call
  transaction_done body s h = rw (quiet s.calls) (finish_done (next_call s) _ (h _ refl refl))
