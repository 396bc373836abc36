-- ===== src/Consistency/History.antt =====
-- The life of a kitchen: orders that are confirmed, and requests between them.
use kitchen_ops.Base.{
  ℕ, ◌≤◌, ◌≡◌, refl, subst, Bool, true, false, some, List, [], ◌∷◌, update_where, All, find?,
  has_key, if◌then◌else◌, arith,
}
use kitchen_ops.Models.{TaskModel, is_unassigned}
use kitchen_ops.Runtime.{Services, Kitchen, Error, ok, err}
use kitchen_ops.Runtime.Outcomes.{OnOk}
use kitchen_ops.Repository.Lifecycle.{complete_row, unblock_row}
use kitchen_ops.Application.Orders.{ConfirmOrderRequest, confirm_order}
use kitchen_ops.Application.Orders.Placed.{WithinSequences}
use kitchen_ops.Consistency.Requests.{Request, serve_all}
use kitchen_ops.Consistency.Sequences.{serve_all-AtIds}
use kitchen_ops.Consistency.Board.{
  Board, board, Move, assigns, starts, requeues, completes, Moves, here, next, set_row,
}
use kitchen_ops.Consistency.Board.Counts.{AreCounted, is_open}
use kitchen_ops.Consistency.Board.Dependencies.{done_before}
use kitchen_ops.Consistency.Board.Runs.{serve_all-Moves, serve_all-AreCounted}
use kitchen_ops.Consistency.Board.Confirming.{confirm_order-AreCounted}

module _ {F Q : Type 0} (w : Services F Q) where
  -- What reaches the service: any requests, orders that are confirmed, and orders that are refused
  -- before anything is written.
  pub data History (s : Kitchen F Q) : Kitchen F Q → Type 0 where
    opening : History s s
    serves : {t : Kitchen F Q} → History s t → (rs : List Request) → History s (serve_all w t rs)
    confirms :
        {t u : Kitchen F Q} {result : ℕ × List ℕ}
        → History s t
        → (req : ConfirmOrderRequest) → confirm_order w req t ≡ (ok result, u)
        → History s u
    refuses :
        {t : Kitchen F Q} {e : Error}
        → History s t
        → (req : ConfirmOrderRequest) (n : ℕ)
        → confirm_order w req t ≡ (err e, record t { calls = n })
        → History s (record t { calls = n })

module _ {F : Type 0} (orders tasks : ℕ) where
  abbrev AreBelow : Board F → Type 0
  AreBelow b =
      All (λ t. (t.id ≤ tasks) × (t.order_id ≤ orders)) b.tasks
      × All (λ d. (d.task_id ≤ tasks) × (d.depends_on_task_id ≤ tasks)) b.dependencies

  update_below :
      (p : TaskModel F → Bool) (g : TaskModel F → TaskModel F) (rows : List (TaskModel F))
      → ((t : TaskModel F) → (g t).id ≡ t.id)
      → ((t : TaskModel F) → (g t).order_id ≡ t.order_id)
      → All (λ t. (t.id ≤ tasks) × (t.order_id ≤ orders)) rows
      → All (λ t. (t.id ≤ tasks) × (t.order_id ≤ orders)) (update_where p g rows)
  update_below p g [] same order h = tt
  update_below p g (t ∷ rows) same order h = (either (p t), update_below p g rows same order h.1)
    where
      either :
          (b : Bool)
          → ((if b then g t else t).id ≤ tasks) × ((if b then g t else t).order_id ≤ orders)
      either true = (omega (arith, same t, h.0.0), omega (arith, order t, h.0.1))
      either false = h.0

  Move-AreBelow : {b c : Board F} → Move b c → AreBelow b → AreBelow c
  Move-AreBelow {b} (assigns t i m now f u p e) h =
      rw e (update_below _ _ b.tasks (λ r. refl) (λ r. refl) h.0, h.1)
  Move-AreBelow {b} (starts t now f u e) h =
      rw e (update_below _ _ b.tasks (λ r. refl) (λ r. refl) h.0, h.1)
  Move-AreBelow {b} (requeues t f u e) h =
      rw e (update_below _ _ b.tasks (λ r. refl) (λ r. refl) h.0, h.1)
  Move-AreBelow {b} (completes t now f u e) h = rw e (
    update_below _ unblock_row (set_row t.id (complete_row now) b.tasks) (λ r. refl) (λ r. refl)
        (update_below _ _ b.tasks (λ r. refl) (λ r. refl) h.0),
    h.1,
  )

  Moves-AreBelow : {b c : Board F} → Moves b c → AreBelow b → AreBelow c
  Moves-AreBelow here h = h
  Moves-AreBelow (next ms m) h = Move-AreBelow m (Moves-AreBelow ms h)

module _ {F Q : Type 0} (w : Services F Q) where
  abbrev IsInOrder : Kitchen F Q → Type 0
  IsInOrder s = AreCounted (board s.db) × WithinSequences s

  serve_all-WithinSequences :
      (s : Kitchen F Q) (rs : List Request) → IsInOrder s → WithinSequences (serve_all w s rs)
  serve_all-WithinSequences s rs (counted, fresh) =
      let at =
        serve_all-AtIds w s.order_seq s.task_seq s rs
          (record { orders_at = refl; tasks_at = refl }) in
      let below =
        Moves-AreBelow s.order_seq s.task_seq (serve_all-Moves w s rs counted.keyed)
          (fresh.tasks, fresh.dependencies) in
      record {
        tasks = rw (at.orders_at, at.tasks_at) below.0;
        dependencies = rw at.tasks_at below.1;
      }

  pub History-IsInOrder : {s t : Kitchen F Q} → History w s t → IsInOrder s → IsInOrder t
  History-IsInOrder opening h = h
  History-IsInOrder (serves {t} past rs) h =
      let kept = History-IsInOrder past h in
      (serve_all-AreCounted w t rs kept.0, serve_all-WithinSequences t rs kept)
  History-IsInOrder (confirms {t} {u} {result} past req e) h =
      let kept = History-IsInOrder past h in
      subst (OnOk (λ _ v. IsInOrder v)) e (confirm_order-AreCounted w req t kept.1 kept.0)
  History-IsInOrder (refuses past req n e) h =
      let kept = History-IsInOrder past h in
      (kept.0, record { tasks = kept.1.tasks; dependencies = kept.1.dependencies })

  -- Let pending_deps count the open dependencies, and no row have an id that the sequences have not
  -- given, as in a kitchen without tasks. After any history of orders that are confirmed or refused
  -- and of requests, a task that is assigned, started or completed has no dependency that is still
  -- open: ConfirmOrder writes what the requests rely on, and no task is handed out before what it
  -- needs is done.
  pub History-respects_dependencies :
      {s t : Kitchen F Q} (past : History w s t) (k : ℕ) (task : TaskModel F)
      → AreCounted (board s.db)
      → WithinSequences s
      → find? (has_key (λ r. r.id) k) t.db.tasks ≡ some task
      → is_unassigned task.status ≡ false
      → All
          (λ d. d.task_id ≡ k → is_open t.db.tasks d.depends_on_task_id ≡ false)
          t.db.task_dependencies
  History-respects_dependencies {s} {t} past k task counted fresh found busy =
      done_before (board t.db) k task (History-IsInOrder past (counted, fresh)).0 found busy
