-- ===== src/Runtime/Outcomes.antt =====
-- Rules for what holds after an action that succeeds, and for what every action keeps.
use kitchen_ops.Base.{
  ◌≡◌, refl, Bool, true, false, Option, none, some, Bytes, sym, subst, if◌then◌else◌,
}
use kitchen_ops.Models.{Database}
use kitchen_ops.Runtime.{
  Services, Kitchen, Error, Result, ok, err, Action, ◌>>=◌, and_then, or_throw, guard, next_call,
  answer, answer_tx, call, on_tx, commit_answer, finish, transaction,
}

-- `P` holds of the result and the state, if the action has succeeded.
abbrev pub OnOk : {F Q A : Type 0} → (A → Kitchen F Q → Type 0) → Result A × Kitchen F Q → Type 0
OnOk P (ok a, s) = P a s
OnOk P (err e, s) = Unit

module _ {F Q A B : Type 0} (w : Services F Q) (P : B → Kitchen F Q → Type 0) where
  answer_tx-OnOk :
      (aborted : Bool) (failure : Option Bytes) (f : Kitchen F Q → A × Kitchen F Q)
      (k : A → Action F Q B) (s : Kitchen F Q)
      → OnOk P (k (f s).0 (f s).1)
      → OnOk P (and_then (answer_tx aborted failure f s) k)
  answer_tx-OnOk true failure f k s h = tt
  answer_tx-OnOk false none f k s h = h
  answer_tx-OnOk false (some text) f k s h = tt

  answer-OnOk :
      (failure : Option Bytes) (f : Kitchen F Q → A × Kitchen F Q) (k : A → Action F Q B)
      (s : Kitchen F Q)
      → OnOk P (k (f s).0 (f s).1)
      → OnOk P (and_then (answer failure f s) k)
  answer-OnOk none f k s h = h
  answer-OnOk (some text) f k s h = tt

  -- A statement, and what follows it.
  pub on_tx-OnOk :
      (f : Kitchen F Q → A × Kitchen F Q) (k : A → Action F Q B) (s : Kitchen F Q)
      → OnOk P (k (f (next_call s)).0 (f (next_call s)).1)
      → OnOk P (and_then (on_tx w f s) k)
  unfolding on_tx
  on_tx-OnOk f k s h = answer_tx-OnOk s.aborted (w.fails s.calls) f k (next_call s) h

  pub call-OnOk :
      (f : Kitchen F Q → A × Kitchen F Q) (k : A → Action F Q B) (s : Kitchen F Q)
      → OnOk P (k (f (next_call s)).0 (f (next_call s)).1)
      → OnOk P (and_then (call w f s) k)
  unfolding call
  call-OnOk f k s h = answer-OnOk (w.fails s.calls) f k (next_call s) h

module _ {F Q A B : Type 0} (P : B → Kitchen F Q → Type 0) where
  pub or_throw-OnOk :
      (o : Option A) (e : Error) (k : A → Action F Q B) (s : Kitchen F Q)
      → ((a : A) → o ≡ some a → OnOk P (k a s))
      → OnOk P (and_then (or_throw o e s) k)
  or_throw-OnOk none e k s h = tt
  or_throw-OnOk (some a) e k s h = h a refl

module _ {F Q B : Type 0} (P : B → Kitchen F Q → Type 0) where
  pub guard-OnOk :
      (b : Bool) (e : Error) (k : Unit {0} → Action F Q B) (s : Kitchen F Q)
      → (b ≡ true → OnOk P (k tt s))
      → OnOk P (and_then (guard b e s) k)
  guard-OnOk true e k s h = h refl
  guard-OnOk false e k s h = tt

module _ {F Q A B : Type 0} (w : Services F Q) (P : B → Kitchen F Q → Type 0) where
  -- A read of one row, that is an error if there is none.
  pub read_OnOk :
      (g : Kitchen F Q → Option A) (e : Error) (k : A → Action F Q B) (s : Kitchen F Q)
      → ((a : A) → g (next_call s) ≡ some a → OnOk P (k a (next_call s)))
      → OnOk P (and_then (and_then (on_tx w (λ t. (g t, t)) s) (λ row. or_throw row e)) k)
  unfolding on_tx
  read_OnOk g e k s h = go s.aborted (w.fails s.calls)
    where
      go :
          (aborted : Bool) (failure : Option Bytes)
          → OnOk P (
              and_then
                (and_then
                  (answer_tx aborted failure (λ t. (g t, t)) (next_call s))
                  (λ row. or_throw row e))
                k)
      go true failure = tt
      go false none = or_throw-OnOk P (g (next_call s)) e k (next_call s) h
      go false (some text) = tt

module _ {F Q A : Type 0} (w : Services F Q) (I : Database F → Type 0) where
  commit_keeps :
      (aborted : Bool) (failure : Option Bytes) (before s : Kitchen F Q) (a : A)
      → I before.db
      → I s.db
      → I (commit_answer aborted failure before a s).1.db
  commit_keeps true failure before s a b h = b
  commit_keeps false none before s a b h = h
  commit_keeps false (some text) before s a b h = b

  finish_keeps :
      (before : Kitchen F Q) (r : Result A × Kitchen F Q)
      → I before.db
      → OnOk (λ _ s. I s.db) r
      → I (finish w before r).1.db
  finish_keeps before (ok a, s) b h =
      commit_keeps s.aborted (w.fails s.calls) before (next_call s) a b h
  finish_keeps before (err e, s) b h = b

  -- A transaction keeps what its body keeps when it succeeds.
  pub transaction_keeps :
      (body : Action F Q A) (s : Kitchen F Q)
      → I s.db
      → ((s' : Kitchen F Q) → I s'.db → OnOk (λ _ t. I t.db) (body s'))
      → I (transaction w body s).1.db
  unfolding transaction call
  transaction_keeps body s b h = go (w.fails s.calls)
    where
      go :
          (failure : Option Bytes)
          → I
              (and_then
                (answer failure (λ t. (t, record t { aborted = false })) (next_call s))
                (λ before t. finish w before (body t))).1.db
      go none = finish_keeps (next_call s) _ b (h _ b)
      go (some text) = b

-- Every run of the action keeps `I`, whether it succeeds or not.
abbrev pub Keeps : {F Q A : Type 0} → (Database F → Type 0) → Action F Q A → Type 0
Keeps {F} {Q} I m = (s : Kitchen F Q) → I s.db → I (m s).1.db

module _ {F Q A B : Type 0} (I : Database F → Type 0) where
  and_then_keeps :
      (r : Result A × Kitchen F Q) (k : A → Action F Q B)
      → I r.1.db
      → ((a : A) → Keeps I (k a))
      → I (and_then r k).1.db
  and_then_keeps (ok a, s) k h next = next a s h
  and_then_keeps (err e, s) k h next = h

  pub bind-Keeps :
      (m : Action F Q A) (k : A → Action F Q B)
      → Keeps I m
      → ((a : A) → Keeps I (k a))
      → Keeps I (m >>= k)
  bind-Keeps m k hm hk s h = and_then_keeps (m s) k (hm s h) hk

module _ {F Q A : Type 0} (w : Services F Q) (I : Database F → Type 0) where
  -- A call that leaves the database alone.
  pub call-Keeps :
      (f : Kitchen F Q → A × Kitchen F Q)
      → ((s : Kitchen F Q) → (f s).1.db ≡ s.db)
      → Keeps I (call w f)
  unfolding call
  call-Keeps f same s h = go (w.fails s.calls)
    where
      go : (failure : Option Bytes) → I (answer failure f (next_call s)).1.db
      go none = subst I (sym (same (next_call s))) h
      go (some text) = h

module _ {F Q A B C : Type 0} (P : C → Kitchen F Q → Type 0) where
  pub assoc_OnOk :
      (r : Result A × Kitchen F Q) (f : A → Action F Q B) (k : B → Action F Q C)
      → OnOk P (and_then r (λ a. f a >>= k))
      → OnOk P (and_then (and_then r f) k)
  assoc_OnOk (ok a, s) f k h = h
  assoc_OnOk (err e, s) f k h = tt

module _ {F Q A B : Type 0} (R : A → Kitchen F Q → Type 0) (P : B → Kitchen F Q → Type 0) where
  -- What holds after the first action is the premise of the second.
  pub bind_OnOk :
      (r : Result A × Kitchen F Q) (k : A → Action F Q B)
      → OnOk R r
      → ((a : A) (s : Kitchen F Q) → R a s → OnOk P (k a s))
      → OnOk P (and_then r k)
  bind_OnOk (ok a, s) k h next = next a s h
  bind_OnOk (err e, s) k h next = tt

module _ {F Q A : Type 0} (w : Services F Q) (P : A → Kitchen F Q → Type 0) where
  -- A statement that stands last.
  pub on_tx_last :
      (f : Kitchen F Q → A × Kitchen F Q) (s : Kitchen F Q)
      → P (f (next_call s)).0 (f (next_call s)).1
      → OnOk P (on_tx w f s)
  unfolding on_tx
  on_tx_last f s h = go s.aborted (w.fails s.calls)
    where
      go :
          (aborted : Bool) (failure : Option Bytes)
          → OnOk P (answer_tx aborted failure f (next_call s))
      go true failure = tt
      go false none = h
      go false (some text) = tt

module _ {F Q A : Type 0} (P R : A → Kitchen F Q → Type 0) where
  pub OnOk-map :
      (r : Result A × Kitchen F Q)
      → OnOk P r
      → ((a : A) (s : Kitchen F Q) → P a s → OnOk R (ok a, s))
      → OnOk R r
  OnOk-map (ok a, s) h f = f a s h
  OnOk-map (err e, s) h f = tt

-- Every successful run of the action keeps `I`.
abbrev pub Preserves : {F Q A : Type 0} → (Database F → Type 0) → Action F Q A → Type 0
Preserves {F} {Q} I m = (s : Kitchen F Q) → I s.db → OnOk (λ _ s'. I s'.db) (m s)

module _ {F Q A B : Type 0} (I : Database F → Type 0) where
  pub bind-Preserves :
      (m : Action F Q A) (k : A → Action F Q B)
      → Preserves I m
      → ((a : A) → Preserves I (k a))
      → Preserves I (m >>= k)
  bind-Preserves m k hm hk s h =
      bind_OnOk (λ _ s'. I s'.db) (λ _ s'. I s'.db) (m s) k (hm s h) (λ a s' h'. hk a s' h')

module _ {F Q A : Type 0} (w : Services F Q) (I : Database F → Type 0) where
  pub on_tx-Preserves :
      (f : Kitchen F Q → A × Kitchen F Q)
      → ((s : Kitchen F Q) → I s.db → I (f s).1.db)
      → Preserves I (on_tx w f)
  on_tx-Preserves f keep s h = on_tx_last w (λ _ s'. I s'.db) f s (keep (next_call s) h)

  pub call-Preserves :
      (f : Kitchen F Q → A × Kitchen F Q)
      → ((s : Kitchen F Q) → (f s).1.db ≡ s.db)
      → Preserves I (call w f)
  unfolding call
  call-Preserves f same s h = go (w.fails s.calls)
    where
      go : (failure : Option Bytes) → OnOk (λ _ s'. I s'.db) (answer failure f (next_call s))
      go none = subst I (sym (same (next_call s))) h
      go (some text) = tt

pub if_Preserves :
    {F Q A : Type 0} (I : Database F → Type 0) (b : Bool) (m n : Action F Q A)
    → Preserves I m
    → Preserves I n
    → Preserves I (if b then m else n)
if_Preserves I true m n hm hn = hm
if_Preserves I false m n hm hn = hn
