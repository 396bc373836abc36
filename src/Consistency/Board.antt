-- ===== src/Consistency/Board.antt =====
-- The abstract kitchen: a board of tasks, dependencies and orders, and the moves that the service
-- makes on it. Queue, events, resources and calls are forgotten.
pub mod Effects
pub mod Serving
pub mod Bodies
pub mod Runs
pub mod Counts
pub mod Dependencies
pub mod Recorded
pub mod Orders
pub mod Appended
pub mod Placing
pub mod Confirming
use kitchen_ops.Base.{
  ℕ, ◌≡◌, refl, Bool, true, false, not, ◌&&◌, ◌||◌, some, List, ◌==◌, IsKeyed, find?, has_key,
  update_where, update_where-IsKeyed, any, count, ltb, if◌then◌else◌,
}
use kitchen_ops.Models.{
  OrderStatus, OrderModel, TaskModel, TaskDependencyModel, Database, is_unassigned, is_assigned,
  is_started, is_completed, order_is_confirmed, order_is_in_progress, order_is_completed,
}
use kitchen_ops.Repository.Allocation.{assign_row}
use kitchen_ops.Repository.Lifecycle.{
  start_row, complete_row, requeue_row, is_dependent, unblock_row,
}

pub record Board (F : Type 0) : Type 0 where
  pub tasks : List (TaskModel F)
  pub dependencies : List TaskDependencyModel
  pub orders : List OrderModel

abbrev pub board : {F : Type 0} → Database F → Board F
board db = record { tasks = db.tasks; dependencies = db.task_dependencies; orders = db.orders }

-- The orders after an assignment, and after a completion.
abbrev pub begin_order : ℕ → List OrderModel → List OrderModel
begin_order id orders =
    update_where (λ o. (o.id == id) && order_is_confirmed o.status)
      (λ o. record o { status = OrderStatus.in_progress }) orders

abbrev pub advance_order : ℕ → List OrderModel → List OrderModel
advance_order id orders =
    update_where
      (λ o. (o.id == id) && (order_is_confirmed o.status || order_is_in_progress o.status))
      (λ o. record o { status = OrderStatus.part_completed }) orders

abbrev pub finish_order : ℕ → List OrderModel → List OrderModel
finish_order id orders =
    update_where (λ o. (o.id == id) && not (order_is_completed o.status))
      (λ o. record o { status = OrderStatus.completed }) orders

module _ {F : Type 0} where
  -- How many tasks of an order are not completed.
  abbrev pub remaining : ℕ → List (TaskModel F) → ℕ
  remaining id tasks = count (λ t. (t.order_id == id) && not (is_completed t.status)) tasks

  abbrev pub set_row : ℕ → (TaskModel F → TaskModel F) → List (TaskModel F) → List (TaskModel F)
  set_row id g tasks = update_where (has_key (λ t. t.id) id) g tasks

  -- A completed task, and each unassigned task that depends on it with one dependency less.
  abbrev pub completed_tasks :
      ℕ → ℕ → List TaskDependencyModel → List (TaskModel F) → List (TaskModel F)
  completed_tasks now id dependencies tasks =
      update_where (λ t. any (is_dependent id t) dependencies) unblock_row
        (set_row id (complete_row now) tasks)

  abbrev pub completed_orders : ℕ → List (TaskModel F) → List OrderModel → List OrderModel
  completed_orders id tasks orders =
      if ltb 0 (remaining id tasks)
      then advance_order id orders
      else finish_order id (advance_order id orders)

  -- One move: of a task that is on the board, in the status that the move asks for.
  pub data Move (b c : Board F) : Type 0 where
    assigns :
        (t : TaskModel F) (staff_id machine_id now : ℕ)
        → find? (has_key (λ r. r.id) t.id) b.tasks ≡ some t
        → is_unassigned t.status ≡ true
        → t.pending_deps ≡ 0
        → c ≡ record b {
          tasks = set_row t.id (assign_row staff_id machine_id now) b.tasks;
          orders = begin_order t.order_id b.orders;
        }
        → Move b c
    starts :
        (t : TaskModel F) (now : ℕ)
        → find? (has_key (λ r. r.id) t.id) b.tasks ≡ some t
        → is_assigned t.status ≡ true
        → c ≡ record b { tasks = set_row t.id (start_row now) b.tasks }
        → Move b c
    requeues :
        (t : TaskModel F)
        → find? (has_key (λ r. r.id) t.id) b.tasks ≡ some t
        → is_assigned t.status ≡ true
        → c ≡ record b { tasks = set_row t.id requeue_row b.tasks }
        → Move b c
    completes :
        (t : TaskModel F) (now : ℕ)
        → find? (has_key (λ r. r.id) t.id) b.tasks ≡ some t
        → is_started t.status ≡ true
        → c ≡ record b {
          tasks = completed_tasks now t.id b.dependencies b.tasks;
          orders =
              completed_orders t.order_id
                (completed_tasks now t.id b.dependencies b.tasks)
                b.orders;
        }
        → Move b c

  pub data Moves (b : Board F) : Board F → Type 0 where
    here : Moves b b
    next : {c d : Board F} → Moves b c → Move c d → Moves b d

  -- Moves keep the ids of tasks a primary key.
  pub Move-IsKeyed :
      {b c : Board F} → Move b c → IsKeyed (λ t. t.id) b.tasks → IsKeyed (λ t. t.id) c.tasks
  Move-IsKeyed {b} (assigns t i m now f u p e) k =
      rw e (update_where-IsKeyed (λ r. r.id) _ _ b.tasks (λ r. refl) k)
  Move-IsKeyed {b} (starts t now f u e) k =
      rw e (update_where-IsKeyed (λ r. r.id) _ _ b.tasks (λ r. refl) k)
  Move-IsKeyed {b} (requeues t f u e) k =
      rw e (update_where-IsKeyed (λ r. r.id) _ _ b.tasks (λ r. refl) k)
  Move-IsKeyed {b} (completes t now f u e) k = rw e (
      update_where-IsKeyed (λ r. r.id) _ unblock_row (set_row t.id (complete_row now) b.tasks)
        (λ r. refl) (update_where-IsKeyed (λ r. r.id) _ _ b.tasks (λ r. refl) k))
