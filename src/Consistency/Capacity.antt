-- ===== src/Consistency/Capacity.antt =====
-- The capacity invariant, and its preservation by the writes of each transition.
pub mod Assign
pub mod Release
pub mod Bodies
pub mod Requeue
pub mod Runs
use kitchen_ops.Base.{ℕ, ◌≡◌, Bool, true, false, ◌&&◌, Option, none, some, List, ◌==◌, IsKeyed}
use kitchen_ops.Models.{TaskStatus, TaskModel, Database}
use kitchen_ops.Consistency.Balance.{Balanced}

-- The task occupies its counter, machine and staff member.
abbrev pub is_active : TaskStatus → Bool
is_active TaskStatus.assigned = true
is_active TaskStatus.started = true
is_active _ = false

abbrev pub names : Option ℕ → ℕ → Bool
names none k = false
names (some j) k = k == j

module _ {F : Type 0} where
  abbrev pub on_counter : ℕ → TaskModel F → Bool
  on_counter k t = is_active t.status && (k == t.counter_id)

  abbrev pub on_machine : ℕ → TaskModel F → Bool
  on_machine k t = is_active t.status && names t.assigned_machine_id k

  abbrev pub on_staff : ℕ → TaskModel F → Bool
  on_staff k t = is_active t.status && names t.assigned_staff_id k

-- The ids are primary keys; each counter's and machine's `in_use` and each staff member's
-- `active_tasks` is the number of active tasks that hold it, and within its limit.
pub record WithinCapacity {F : Type 0} (db : Database F) : Type 0 where
  pub task_keys : IsKeyed (λ t. t.id) db.tasks
  pub counter_keys : IsKeyed (λ c. c.id) db.counters
  pub machine_keys : IsKeyed (λ m. m.id) db.machines
  pub staff_keys : IsKeyed (λ r. r.id) db.staff
  pub counters :
      Balanced
        (λ c. c.id)
        (λ c. c.in_use)
        (λ c. c.capacity)
        (λ t. t.id)
        on_counter
        db.counters
        db.tasks
  pub machines :
      Balanced
        (λ m. m.id)
        (λ m. m.in_use)
        (λ m. m.capacity)
        (λ t. t.id)
        on_machine
        db.machines
        db.tasks
  pub staff :
      Balanced
        (λ r. r.id)
        (λ r. r.active_tasks)
        (λ r. r.max_parallel)
        (λ t. t.id)
        on_staff
        db.staff
        db.tasks
