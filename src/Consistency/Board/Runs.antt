-- ===== src/Consistency/Board/Runs.antt =====
-- The service refines the board: every run of requests is a path of moves.
use kitchen_ops.Base.{ℕ, ◌≡◌, false, some, List, IsKeyed, find?, has_key, All}
use kitchen_ops.Models.{TaskModel, is_unassigned}
use kitchen_ops.Runtime.{Services, Kitchen}
use kitchen_ops.Consistency.Expired.{requeue_body-Preserves}
use kitchen_ops.Consistency.Requests.{Request, serve_all, serve_all_keeps}
use kitchen_ops.Consistency.Board.{Board, board, Moves, here}
use kitchen_ops.Consistency.Board.Counts.{AreCounted, is_open}
use kitchen_ops.Consistency.Board.Dependencies.{Moves-AreCounted, done_before}
use kitchen_ops.Consistency.Board.Orders.{AreClosed, Moves-AreClosed}
use kitchen_ops.Consistency.Board.Bodies.{
  Traced, assign_task-Traced, start_body-Traced, requeue_task-Traced, complete_body-Traced,
}

-- Where task ids are a primary key, any sequence of requests takes the board of tasks, dependencies
-- and orders along moves of the abstract kitchen only: an assignment writes the task and begins its
-- order; a start and a requeue write the task; a completion writes the task, takes one off the
-- pending dependencies of each unassigned dependent, and advances or closes the order. No call's
-- failure leaves a move half done.
pub serve_all-Moves :
    {F Q : Type 0} (w : Services F Q) (s : Kitchen F Q) (rs : List Request)
    → IsKeyed (λ t. t.id) s.db.tasks
    → Moves (board s.db) (board (serve_all w s rs).db)
serve_all-Moves {F} w s rs keyed =
    (serve_all_keeps w (Traced w from) (assign_task-Traced w from)
      (requeue_body-Preserves w (Traced w from) (λ db e. e.0) (requeue_task-Traced w from))
      (start_body-Traced w from) (complete_body-Traced w from) s rs (keyed, here)).1
  where
    from : Board F
    from = board s.db

module _ {F Q : Type 0} (w : Services F Q) (s : Kitchen F Q) (rs : List Request) where
  -- Let each task's pending_deps be the number of its dependencies that are on the board and not
  -- completed, and 0 once it is assigned; let task ids be a primary key, and the two ids of a
  -- dependency be one. Then so it is after any sequence of requests, with any failures of calls.
  pub serve_all-AreCounted : AreCounted (board s.db) → AreCounted (board (serve_all w s rs).db)
  serve_all-AreCounted counted = Moves-AreCounted (serve_all-Moves w s rs counted.keyed) counted

  -- Where dependencies are counted so before a sequence of requests, a task that is assigned,
  -- started or completed after it has no dependency that is still open: each task that it waits for
  -- is completed. No task is handed out before what it needs is done.
  pub serve_all_respects_dependencies :
      (k : ℕ) (t : TaskModel F)
      → AreCounted (board s.db)
      → find? (has_key (λ r. r.id) k) (serve_all w s rs).db.tasks ≡ some t
      → is_unassigned t.status ≡ false
      → All
          (λ d. d.task_id ≡ k → is_open (serve_all w s rs).db.tasks d.depends_on_task_id ≡ false)
          (serve_all w s rs).db.task_dependencies
  serve_all_respects_dependencies k t counted found busy =
      done_before (board (serve_all w s rs).db) k t (serve_all-AreCounted counted) found busy

  -- Where every task of each completed order is completed, so it is after any sequence of requests:
  -- an order is closed only when nothing of it is left, and nothing reopens a task of it. Task ids are
  -- a primary key.
  pub serve_all-AreClosed :
      IsKeyed (λ t. t.id) s.db.tasks
      → AreClosed s.db.tasks s.db.orders
      → AreClosed (serve_all w s rs).db.tasks (serve_all w s rs).db.orders
  serve_all-AreClosed keyed closed = (Moves-AreClosed (serve_all-Moves w s rs keyed) keyed closed).1
