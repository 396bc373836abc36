-- ===== src/Runtime/Sequences.antt =====
-- Actions that draw no order's or task's id: they leave both sequences as they are.
use kitchen_ops.Base.{ℕ, ◌≡◌, refl, Bool, true, false, Option, none, some, Bytes, if◌then◌else◌}
use kitchen_ops.Runtime.{
  Services, Kitchen, Error, Result, ok, err, Action, and_then, or_throw, guard, next_call, answer,
  answer_tx, call, on_tx, commit_answer, finish, transaction,
}

-- The sequences stand at `orders` and `tasks`, and after an action too, whatever its result.
pub record AtIds {F Q : Type 0} (orders tasks : ℕ) (s : Kitchen F Q) : Type 0 where
  pub orders_at : s.order_seq ≡ orders
  pub tasks_at : s.task_seq ≡ tasks

pub record OnIds {F Q A : Type 0} (orders tasks : ℕ) (r : Result A × Kitchen F Q) : Type 0 where
  pub after_at : AtIds orders tasks r.1

abbrev pub IsSteady : {F Q A : Type 0} → ℕ → ℕ → Action F Q A → Type 0
IsSteady {F} {Q} orders tasks m =
    (s : Kitchen F Q) → AtIds orders tasks s → OnIds orders tasks (m s)

module _ {F Q : Type 0} {orders tasks : ℕ} where
  -- The same sequences.
  pub moved :
      (s t : Kitchen F Q)
      → t.order_seq ≡ s.order_seq
      → t.task_seq ≡ s.task_seq
      → AtIds orders tasks s
      → AtIds orders tasks t
  moved s t o i h = record { orders_at = cc (o, h.orders_at); tasks_at = cc (i, h.tasks_at) }

module _ {F Q A B : Type 0} {orders tasks : ℕ} where
  pub bind_ids :
      (r : Result A × Kitchen F Q) (k : A → Action F Q B)
      → OnIds orders tasks r
      → ((a : A) (s : Kitchen F Q) → AtIds orders tasks s → OnIds orders tasks (k a s))
      → OnIds orders tasks (and_then r k)
  bind_ids (ok a, s) k h next = next a s h.after_at
  bind_ids (err e, s) k h next = record { after_at = h.after_at }

module _ {F Q A : Type 0} {orders tasks : ℕ} where
  pub done_ids : (r : Result A) (s : Kitchen F Q) → AtIds orders tasks s → OnIds orders tasks (r, s)
  done_ids r s h = record { after_at = h }

  pub or_throw_ids :
      (o : Option A) (e : Error) (s : Kitchen F Q)
      → AtIds orders tasks s
      → OnIds orders tasks (or_throw o e s)
  or_throw_ids none e s h = record { after_at = h }
  or_throw_ids (some a) e s h = record { after_at = h }

  pub if_ids :
      (b : Bool) (m n : Action F Q A) (s : Kitchen F Q)
      → OnIds orders tasks (m s)
      → OnIds orders tasks (n s)
      → OnIds orders tasks ((if b then m else n) s)
  if_ids true m n s hm hn = hm
  if_ids false m n s hm hn = hn

pub guard_ids :
    {F Q : Type 0} {orders tasks : ℕ} (b : Bool) (e : Error) (s : Kitchen F Q)
    → AtIds orders tasks s
    → OnIds orders tasks (guard b e s)
guard_ids true e s h = record { after_at = h }
guard_ids false e s h = record { after_at = h }

module _ {F Q A : Type 0} (w : Services F Q) {orders tasks : ℕ} where
  pub on_tx_ids :
      (f : Kitchen F Q → A × Kitchen F Q) (s : Kitchen F Q)
      → (f (next_call s)).1.order_seq ≡ s.order_seq
      → (f (next_call s)).1.task_seq ≡ s.task_seq
      → AtIds orders tasks s
      → OnIds orders tasks (on_tx w f s)
  unfolding on_tx
  on_tx_ids f s o i h = go s.aborted (w.fails s.calls)
    where
      go :
          (aborted : Bool) (failure : Option Bytes)
          → OnIds orders tasks (answer_tx aborted failure f (next_call s))
      go true failure = done_ids _ _ (moved s _ refl refl h)
      go false none = done_ids _ _ (moved s _ o i h)
      go false (some text) = done_ids _ _ (moved s _ refl refl h)

  pub call_ids :
      (f : Kitchen F Q → A × Kitchen F Q) (s : Kitchen F Q)
      → (f (next_call s)).1.order_seq ≡ s.order_seq
      → (f (next_call s)).1.task_seq ≡ s.task_seq
      → AtIds orders tasks s
      → OnIds orders tasks (call w f s)
  unfolding call
  call_ids f s o i h = go (w.fails s.calls)
    where
      go : (failure : Option Bytes) → OnIds orders tasks (answer failure f (next_call s))
      go none = done_ids _ _ (moved s _ o i h)
      go (some text) = done_ids _ _ (moved s _ refl refl h)

  finish_ids :
      (before : Kitchen F Q) (r : Result A × Kitchen F Q)
      → OnIds orders tasks r
      → OnIds orders tasks (finish w before r)
  finish_ids before (ok a, t) h = go t.aborted (w.fails t.calls)
    where
      go :
          (aborted : Bool) (failure : Option Bytes)
          → OnIds orders tasks (commit_answer aborted failure before a (next_call t))
      go true failure = done_ids _ _ (moved t _ refl refl h.after_at)
      go false none = done_ids _ _ (moved t _ refl refl h.after_at)
      go false (some text) = done_ids _ _ (moved t _ refl refl h.after_at)
  finish_ids before (err e, t) h = done_ids _ _ (moved t _ refl refl h.after_at)

module _ {F Q A : Type 0} (w : Services F Q) {orders tasks : ℕ} where
  pub transaction_ids :
      (body : Action F Q A) (s : Kitchen F Q)
      → ((t : Kitchen F Q) → AtIds orders tasks t → OnIds orders tasks (body t))
      → AtIds orders tasks s
      → OnIds orders tasks (transaction w body s)
  unfolding transaction
  transaction_ids body s steady h =
      bind_ids (call w (λ t. (t, record t { aborted = false })) s) _ (call_ids w _ s refl refl h)
        (λ before t h'. finish_ids w before (body t) (steady t h'))
