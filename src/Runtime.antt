-- ===== src/Runtime.antt =====
-- What the services run on. The state is the database, the ready queue and the count of calls to
-- the outside; an operation is a function of the state that returns a result or an error.
--
-- Postgres, Redis and the clock are not part of the repository: what they may choose is a
-- parameter, the record `Services`. SQL is read as a language: WHERE is a test on rows, UPDATE
-- a map over them, ORDER BY a sort. A failed statement aborts its transaction, every later
-- statement of an aborted transaction fails, and a transaction that fails is rolled back.
pub mod Outcomes
pub mod Atomic
pub mod Success
pub mod Either
pub mod Sequences
use kitchen_ops.Base.{
  ℕ, ◌+◌, ◌-◌, ◌/◌, ◌%◌, ◌≡◌, refl, Bool, true, false, Option, none, some, List, Bytes, ℤ, pos,
  negsuc, codes, if◌then◌else◌, ltb, sort, arith,
}
use kitchen_ops.Models.{Database, DomainEvent}

-- The operations on float64 that the code uses; `decimal n k` is the literal n / 10^k.
pub record Float64 (F : Type 0) : Type 0 where
  pub add : F → F → F
  pub sub : F → F → F
  pub mul : F → F → F
  pub div : F → F → F
  pub neg : F → F
  pub max : F → F → F
  pub of_int : ℤ → F
  pub to_int : F → ℤ
  pub decimal : ℕ → ℕ → F
  pub lt : F → F → Bool
  pub eq : F → F → Bool

-- What the services are given from outside. A call is known by its number.
--   fails: the error text of a call that fails
--   locked: the rows that SKIP LOCKED passes over
--   rank: the order of rows where the query states none
--   clock: time.Now() when so many calls have been made
--   float, numeric: Go's float64, and the arithmetic of the NUMERIC columns
--   enqueue, pop_top_n: the ready queue in use
--   marshal: json.Marshal of an event
pub record Services (F Q : Type 0) : Type 0 where
  pub fails : ℕ → Option Bytes
  pub locked : ℕ → ℕ → Bool
  pub rank : ℕ → ℕ → ℕ
  pub clock : ℕ → ℕ
  pub float : Float64 F
  pub numeric : Float64 F
  pub enqueue : Bytes → F → Q → Q
  pub pop_top_n : ℕ → Q → List Bytes × Q
  pub marshal : DomainEvent → Bytes

pub record Kitchen (F Q : Type 0) : Type 0 where
  pub db : Database F
  pub queue : Q
  pub order_seq : ℕ
  pub task_seq : ℕ
  pub event_seq : ℕ
  pub calls : ℕ
  pub aborted : Bool

pub data Error : Type 0 where
  not_found counter_busy no_eligible_staff : Error
  missing_machine not_assigned not_started missing_assigned_machine missing_metadata : ℕ → Error
  items_required no_tasks : Error
  recipe_not_found : Bytes → Error
  step_missing_machine : Bytes → ℕ → Error
  invalid_indices : ℕ → ℕ → Error
  self_dependency : ℕ → Error
  -- Go's panic on an index out of range.
  index_out_of_range : Error
  driver : Bytes → Error

pub data Result (A : Type 0) : Type 0 where
  ok : A → Result A
  err : Error → Result A

abbrev pub Action : Type 0 → Type 0 → Type 0 → Type 0
Action F Q A = Kitchen F Q → Result A × Kitchen F Q

module _ {F Q A : Type 0} where
  abbrev pub pure : A → Action F Q A
  pure a s = (ok a, s)

  abbrev pub throw : Error → Action F Q A
  throw e s = (err e, s)

  -- gorm.ErrRecordNotFound, as the repository passes it on.
  abbrev pub or_throw : Option A → Error → Action F Q A
  or_throw none e = throw e
  or_throw (some a) e = pure a

module _ {F Q A B : Type 0} where
  abbrev pub and_then : Result A × Kitchen F Q → (A → Action F Q B) → Result B × Kitchen F Q
  and_then (ok a, s) f = f a s
  and_then (err e, s) f = (err e, s)

  infixl 5 ◌>>=◌ ◌>>◌
  abbrev pub ◌>>=◌ : Action F Q A → (A → Action F Q B) → Action F Q B
  ◌>>=◌ m f s = and_then (m s) f

  abbrev pub ◌>>◌ : Action F Q A → Action F Q B → Action F Q B
  m >> k = m >>= λ _. k

abbrev pub guard : {F Q : Type 0} → Bool → Error → Action F Q (Unit {0})
guard true e = pure tt
guard false e = throw e

abbrev pub get : {F Q : Type 0} → Action F Q (Kitchen F Q)
get s = (ok s, s)

abbrev pub next_call : {F Q : Type 0} → Kitchen F Q → Kitchen F Q
next_call s = record s { calls = s.calls + 1 }

abbrev pub aborted_text : Bytes
aborted_text =
    codes "current transaction is aborted, commands ignored until end of transaction block"

module _ {F Q A : Type 0} where
  abbrev pub answer :
      Option Bytes → (Kitchen F Q → A × Kitchen F Q) → Kitchen F Q → Result A × Kitchen F Q
  answer none f s = (ok (f s).0, (f s).1)
  answer (some text) f s = (err (driver text), s)

  abbrev pub answer_tx :
      Bool → Option Bytes → (Kitchen F Q → A × Kitchen F Q) → Kitchen F Q → Result A × Kitchen F Q
  answer_tx true failure f s = (err (driver aborted_text), s)
  answer_tx false none f s = (ok (f s).0, (f s).1)
  answer_tx false (some text) f s = (err (driver text), record s { aborted = true })

  -- A call outside a transaction: a statement on `r.db`, or an operation of the ready queue.
  unfoldable pub call : Services F Q → (Kitchen F Q → A × Kitchen F Q) → Action F Q A
  call w f s = answer (w.fails s.calls) f (next_call s)

  -- A statement on `tx`.
  unfoldable pub on_tx : Services F Q → (Kitchen F Q → A × Kitchen F Q) → Action F Q A
  on_tx w f s = answer_tx s.aborted (w.fails s.calls) f (next_call s)

-- ROLLBACK of a transaction that began at `before`. The queue and the sequences are not part of
-- the database's transaction.
abbrev pub rollback : {F Q : Type 0} → Kitchen F Q → Kitchen F Q → Kitchen F Q
rollback before s = record s { db = before.db; aborted = false }

module _ {F Q A : Type 0} where
  -- COMMIT; that of an aborted transaction is a rollback, and an error.
  abbrev pub commit_answer :
      Bool → Option Bytes → Kitchen F Q → A → Kitchen F Q → Result A × Kitchen F Q
  commit_answer true failure before a s = (err (driver aborted_text), rollback before s)
  commit_answer false none before a s = (ok a, s)
  commit_answer false (some text) before a s = (err (driver text), rollback before s)

  abbrev pub finish : Services F Q → Kitchen F Q → Result A × Kitchen F Q → Result A × Kitchen F Q
  finish w before (ok a, s) = commit_answer s.aborted (w.fails s.calls) before a (next_call s)
  finish w before (err e, s) = (err e, rollback before (next_call s))

  -- db.Transaction(func(tx) error { body })
  unfoldable pub transaction : Services F Q → Action F Q A → Action F Q A
  transaction w body = do
    before ← call w (λ s. (s, record s { aborted = false }))
    λ s. finish w before (body s)

-- The order that a query without ORDER BY returns its rows in.
abbrev pub arrange : {F Q A : Type 0} → Services F Q → ℕ → (A → ℕ) → List A → List A
arrange w n key = sort (λ a b. ltb (w.rank n (key a)) (w.rank n (key b)))

abbrev pub second : ℕ
second = 1000000000

-- t.Sub(u)
abbrev pub time_sub : ℕ → ℕ → ℤ
time_sub t u = if ltb t u then negsuc (u - t - 1) else pos (t - u)

-- Duration.Seconds()
unfoldable pub seconds : {F : Type 0} → Float64 F → ℤ → F
seconds fl (pos n) =
    fl.add (fl.of_int (pos (n / second)))
      (fl.div (fl.of_int (pos (n % second))) (fl.decimal second 0))
seconds fl (negsuc n) =
    fl.add (fl.of_int (time_sub 0 ((n + 1) / second)))
      (fl.div (fl.of_int (time_sub 0 ((n + 1) % second))) (fl.decimal second 0))
