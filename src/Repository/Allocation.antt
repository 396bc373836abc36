-- ===== src/Repository/Allocation.antt =====
-- internal/repository/allocation_repo.go
use kitchen_ops.Base.{
  ℕ, ◌+◌, Bool, not, ◌&&◌, some, List, [], ◌∷◌, ◌++◌, ltb, leb, ◌==◌, where_, find?, update_where,
  has_key, ℤ, greatest_add,
}
use kitchen_ops.Models.{
  TaskStatus, TaskModel, StaffModel, StaffSkillModel, CounterModel, MachineModel, is_unassigned,
}
use kitchen_ops.Runtime.{Services, Kitchen, Action, ◌>>=◌, or_throw, not_found, on_tx, arrange}

-- The rows of `as` joined with those of `bs`: SELECT a.* FROM a JOIN b ON ...
module _ {A B : Type 0} where
  abbrev pub for_each : A → List B → List A
  for_each a [] = []
  for_each a (b ∷ bs) = a ∷ for_each a bs

  abbrev pub join : (A → B → Bool) → List A → List B → List A
  join on [] bs = []
  join on (a ∷ rest) bs = for_each a (where_ (on a) bs) ++ join on rest bs

module _ {F Q : Type 0} where
  abbrev pub set_tasks :
      (List (TaskModel F) → List (TaskModel F)) → Kitchen F Q → Unit {0} × Kitchen F Q
  set_tasks f s = (tt, record s { db = record (s.db) { tasks = f s.db.tasks } })

  abbrev pub set_staff :
      (List (StaffModel F) → List (StaffModel F)) → Kitchen F Q → Unit {0} × Kitchen F Q
  set_staff f s = (tt, record s { db = record (s.db) { staff = f s.db.staff } })

  abbrev pub set_counters :
      (List CounterModel → List CounterModel) → Kitchen F Q → Unit {0} × Kitchen F Q
  set_counters f s = (tt, record s { db = record (s.db) { counters = f s.db.counters } })

  abbrev pub set_machines :
      (List MachineModel → List MachineModel) → Kitchen F Q → Unit {0} × Kitchen F Q
  set_machines f s = (tt, record s { db = record (s.db) { machines = f s.db.machines } })

-- The WHERE of the locked task: id = ? AND status = 'UNASSIGNED' AND pending_deps = 0
abbrev pub is_assignable : {F : Type 0} → ℕ → TaskModel F → Bool
is_assignable task_id t = (t.id == task_id) && (is_unassigned t.status && (t.pending_deps == 0))

-- s.on_break = FALSE AND s.shift_start <= now AND s.shift_end >= now
-- AND s.active_tasks < s.max_parallel
abbrev pub is_available : {F : Type 0} → ℕ → StaffModel F → Bool
is_available now s =
    not s.on_break
    && (leb s.shift_start now && (leb now s.shift_end && ltb s.active_tasks s.max_parallel))

-- sk.staff_id = s.id AND sk.counter_id = ? AND the staff row is available
abbrev pub is_eligible : {F : Type 0} → ℕ → ℕ → StaffModel F → StaffSkillModel → Bool
is_eligible counter_id now s sk =
    (sk.staff_id == s.id) && ((sk.counter_id == counter_id) && is_available now s)

-- machines.id = ? AND machines.counter_id = ? AND machines.is_up = TRUE
-- AND machines.in_use < machines.capacity
abbrev pub is_free_machine : ℕ → ℕ → MachineModel → Bool
is_free_machine machine_id counter_id m =
    (m.id == machine_id) && ((m.counter_id == counter_id) && (m.is_up && ltb m.in_use m.capacity))

-- The SET of an assignment.
abbrev pub assign_row : {F : Type 0} → ℕ → ℕ → ℕ → TaskModel F → TaskModel F
assign_row staff_id machine_id assigned_at t = record t {
  assigned_staff_id = some staff_id;
  assigned_machine_id = some machine_id;
  status = TaskStatus.assigned;
  assigned_at = some assigned_at;
  assignment_version = t.assignment_version + 1;
}

module _ {F Q : Type 0} (w : Services F Q) where
  -- FOR UPDATE SKIP LOCKED: a row that another transaction holds is not found.
  unfoldable pub lock_task_for_assignment : ℕ → Action F Q (TaskModel F)
  lock_task_for_assignment task_id = do
    row ←
        on_tx w
          λ s. (find? (λ t. is_assignable task_id t && not (w.locked s.calls t.id)) s.db.tasks, s)
    or_throw row not_found

  unfoldable pub find_eligible_staff : ℕ → ℕ → Action F Q (List (StaffModel F))
  find_eligible_staff counter_id now = on_tx w λ s. (
    join (is_eligible counter_id now) (arrange w s.calls (λ r. r.id) s.db.staff) s.db.staff_skills,
    s,
  )

  unfoldable pub lock_counter : ℕ → Action F Q CounterModel
  lock_counter counter_id = do
    row ← on_tx w λ s. (find? (has_key (λ c. c.id) counter_id) s.db.counters, s)
    or_throw row not_found

  unfoldable pub lock_machine_for_task : ℕ → ℕ → Action F Q MachineModel
  lock_machine_for_task machine_id counter_id = do
    row ← on_tx w λ s. (
      find? (λ m. is_free_machine machine_id counter_id m && not (w.locked s.calls m.id))
          s.db.machines,
      s,
    )
    or_throw row not_found

  unfoldable pub lock_staff : ℕ → Action F Q (StaffModel F)
  lock_staff staff_id = do
    row ← on_tx w λ s. (find? (has_key (λ r. r.id) staff_id) s.db.staff, s)
    or_throw row not_found

  unfoldable pub update_task_assignment : ℕ → ℕ → ℕ → ℕ → Action F Q (Unit {0})
  update_task_assignment task_id staff_id machine_id assigned_at = on_tx w (
      set_tasks
        (update_where (has_key (λ t. t.id) task_id) (assign_row staff_id machine_id assigned_at)))

  unfoldable pub increment_staff_active_tasks : ℕ → ℤ → Action F Q (Unit {0})
  increment_staff_active_tasks staff_id delta = on_tx w (
      set_staff (
        update_where (has_key (λ r. r.id) staff_id)
          (λ r. record r { active_tasks = greatest_add r.active_tasks delta })))
