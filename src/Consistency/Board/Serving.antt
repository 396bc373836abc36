-- ===== src/Consistency/Board/Serving.antt =====
-- A task that is assigned can be started, and then completed.
use kitchen_ops.Base.{
  ℕ, List, IsKeyed, arith, false, ◌≡◌, refl, ◌∙◌, ap, Bool, true, false, none, some, any,
  if◌then◌else◌, find?, has_key, find-key, find-update_self, find-update_where,
}
use kitchen_ops.Models.{TaskModel, Database, is_assigned, is_started, is_completed}
use kitchen_ops.Runtime.{Services, Kitchen, Result, ok, err}
use kitchen_ops.Runtime.Atomic.{AllOrNothing}
use kitchen_ops.Runtime.Success.{OnDone}
use kitchen_ops.Repository.Lifecycle.{start_row, complete_row, is_dependent, unblock_row}
use kitchen_ops.Application.Tasks.{start_task, complete_task}
use kitchen_ops.Application.Tasks.Success.{start_task_done, complete_task_done}
use kitchen_ops.Consistency.Board.{Board, board, set_row, completed_tasks}
use kitchen_ops.Consistency.Requests.{Request, serve_all}
use kitchen_ops.Consistency.Board.Runs.{serve_all-Moves}
use kitchen_ops.Consistency.Board.Recorded.{AreRecorded, Moves-AreRecorded}
use kitchen_ops.Consistency.Board.Effects.{
  Started, Completed, start_task-Started, complete_task-Completed,
}

-- What succeeds has its effect.
effect_of :
    {F Q : Type 0} (P : Database F → Type 0) (before : Database F)
    (r : Result (Unit {0}) × Kitchen F Q)
    → OnDone (λ _ _. Unit) r
    → AllOrNothing (λ _ db. P db) before r
    → (r.0 ≡ ok tt) × P r.1.db
effect_of P before (ok a, s) d h = (refl, h)
effect_of P before (err e, s) d h = absurd d

module _ {F : Type 0} where
  Started-row :
      (now id : ℕ) (b c : Board F) (t : TaskModel F)
      → find? (has_key (λ r. r.id) id) b.tasks ≡ some t
      → Started now id b c
      → find? (has_key (λ r. r.id) id) c.tasks ≡ some (start_row now t)
  Started-row now id b c t found (u, at, passed, eq) =
      ap (λ d. find? (has_key (λ r. r.id) id) d.tasks) eq
      ∙ (ap (λ k. find? (has_key (λ r. r.id) id) (set_row k (start_row now) b.tasks))
            (find-key (λ r. r.id) id b.tasks u at)
          ∙ find-update_self (λ r. r.id) id (start_row now) b.tasks t (λ r. refl) found)

  Completed-row :
      (now id : ℕ) (b c : Board F)
      → Completed now id b c
      → (t : TaskModel F) × (find? (has_key (λ r. r.id) id) c.tasks ≡ some t)
        × (is_completed t.status ≡ true)
  Completed-row now id b c (u, at, passed, eq) = (
    unblocked,
    ap (λ d. find? (has_key (λ r. r.id) id) d.tasks) eq
        ∙ (ap (λ k. find? (has_key (λ r. r.id) id) (completed_tasks now k b.dependencies b.tasks))
              (find-key (λ r. r.id) id b.tasks u at)
            ∙ find-update_where (λ r. r.id) id waits unblock_row _ (complete_row now u) (λ r. refl)
                (find-update_self (λ r. r.id) id (complete_row now) b.tasks u (λ r. refl) at)),
    still (waits (complete_row now u)),
  )
    where
      waits : TaskModel F → Bool
      waits t = any (is_dependent id t) b.dependencies

      unblocked : TaskModel F
      unblocked =
          if waits (complete_row now u)
          then unblock_row (complete_row now u)
          else complete_row now u

      still :
          (p : Bool)
          → is_completed (if p then unblock_row (complete_row now u) else complete_row now u).status
            ≡ true
      still true = refl
      still false = refl

module _ {F Q : Type 0} (w : Services F Q) where
  -- If no call fails, a task that is assigned, to a staff member and a machine, can be started, and
  -- after that completed: both requests succeed, and the task is completed after them.
  pub start_then_complete :
      ((n : ℕ) → w.fails n ≡ none)
      → (task_id staff_id machine_id : ℕ) (s : Kitchen F Q) (t : TaskModel F)
      → find? (has_key (λ r. r.id) task_id) s.db.tasks ≡ some t
      → is_assigned t.status ≡ true
      → t.assigned_staff_id ≡ some staff_id
      → t.assigned_machine_id ≡ some machine_id
      → ((start_task w task_id s).0 ≡ ok tt)
        × ((complete_task w task_id (start_task w task_id s).1).0 ≡ ok tt)
        × ((t' : TaskModel F) × (find?
                (has_key (λ r. r.id) task_id)
                (complete_task w task_id (start_task w task_id s).1).1.db.tasks
              ≡ some t')
            × (is_completed t'.status ≡ true))
  start_then_complete quiet task_id staff_id machine_id s t found passed staff machine = (
    first.0,
    second.0,
    Completed-row (w.clock s'.calls) task_id (board s'.db) (board (complete_task w task_id s').1.db)
        second.1,
  )
    where
      s' : Kitchen F Q
      s' = (start_task w task_id s).1

      first :
          ((start_task w task_id s).0 ≡ ok tt)
          × Started (w.clock s.calls) task_id (board s.db) (board s'.db)
      first =
          effect_of (λ db. Started (w.clock s.calls) task_id (board s.db) (board db)) s.db
            (start_task w task_id s)
            (start_task_done w quiet task_id machine_id s t found passed machine)
            (start_task-Started w task_id s)

      second :
          ((complete_task w task_id s').0 ≡ ok tt)
          × Completed
              (w.clock s'.calls)
              task_id
              (board s'.db)
              (board (complete_task w task_id s').1.db)
      second =
          effect_of (λ db. Completed (w.clock s'.calls) task_id (board s'.db) (board db)) s'.db
            (complete_task w task_id s')
            (complete_task_done w quiet task_id staff_id machine_id (w.clock s.calls) s'
              (start_row (w.clock s.calls) t)
              (Started-row (w.clock s.calls) task_id (board s.db) (board s'.db) t found first.1)
              refl machine staff refl)
            (complete_task-Completed w task_id s')

-- Let every task that is assigned or started have its staff member and its machine, and a started
-- one its start time; let task ids be a primary key. Then after any sequence of requests, with any
-- failures of calls, a task that is started can be completed: if no call fails from then on, the
-- request succeeds, and the task is completed. No started task is stuck.
pub started_completes :
    {F Q : Type 0} (w calm : Services F Q)
    → ((n : ℕ) → calm.fails n ≡ none)
    → (s : Kitchen F Q) (rs : List Request) → IsKeyed (λ t. t.id) s.db.tasks
    → AreRecorded (board s.db)
    → (task_id : ℕ) (t : TaskModel F)
    → find? (has_key (λ r. r.id) task_id) (serve_all w s rs).db.tasks ≡ some t
    → is_started t.status ≡ true
    → ((complete_task calm task_id (serve_all w s rs)).0 ≡ ok tt)
      × ((t' : TaskModel F) × (find?
              (has_key (λ r. r.id) task_id)
              (complete_task calm task_id (serve_all w s rs)).1.db.tasks
            ≡ some t')
          × (is_completed t'.status ≡ true))
started_completes {F} {Q} w calm quiet s rs keyed recorded task_id t found started =
    let on_record = Moves-AreRecorded (serve_all-Moves w s rs keyed) recorded task_id t found in
    let ((i, staff), (m, machine)) = on_record.0 (ground arith) in
    let (at, start_time) = on_record.1 started in
    let done =
      effect_of (λ db. Completed (calm.clock s'.calls) task_id (board s'.db) (board db)) s'.db
        (complete_task calm task_id s')
        (complete_task_done calm quiet task_id i m at s' t found started machine staff start_time)
        (complete_task-Completed calm task_id s') in
    (
      done.0,
      Completed-row (calm.clock s'.calls) task_id (board s'.db)
          (board (complete_task calm task_id s').1.db) done.1,
    )
  where
    s' : Kitchen F Q
    s' = serve_all w s rs
