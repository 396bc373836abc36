-- ===== src/Consistency/Capacity/Release.antt =====
-- A completed task releases its counter, its machine and its staff member; a started one keeps them.
use kitchen_ops.Base.{
  ℕ, ◌≡◌, refl, true, false, Option, none, some, List, IsKeyed, arith, negsuc, find?, has_key,
  update_where, update_where-IsKeyed, greatest_add,
}
use kitchen_ops.Models.{TaskModel, StaffModel, DomainEventModel, OrderModel, Database, is_assigned}
use kitchen_ops.Repository.Lifecycle.{start_row, use_counter, use_machine}
use kitchen_ops.Consistency.Balance.{Balanced, Balanced-keep, Balanced-drop}
use kitchen_ops.Consistency.Capacity.{WithinCapacity, is_active, on_counter, on_machine, on_staff}

module _ {F : Type 0} (db : Database F) (task : TaskModel F) (v : WithinCapacity db)
    (found : find? (has_key (λ t. t.id) task.id) db.tasks ≡ some task) where
  -- The writes of a start.
  pub started-WithinCapacity :
      (now : ℕ) (events : List DomainEventModel)
      → is_assigned task.status ≡ true
      → WithinCapacity (record db {
        tasks = update_where (has_key (λ t. t.id) task.id) (start_row now) db.tasks;
        domain_events = events;
      })
  started-WithinCapacity now events ready = record {
    task_keys = update_where-IsKeyed _ _ _ db.tasks (λ t. refl) v.task_keys;
    counter_keys = v.counter_keys;
    machine_keys = v.machine_keys;
    staff_keys = v.staff_keys;
    counters =
        Balanced-keep _ _ _ _ on_counter task.id (start_row now) db.tasks task v.task_keys found
          db.counters (λ i. ground arith) v.counters;
    machines =
        Balanced-keep _ _ _ _ on_machine task.id (start_row now) db.tasks task v.task_keys found
          db.machines (λ i. ground arith) v.machines;
    staff =
        Balanced-keep _ _ _ _ on_staff task.id (start_row now) db.tasks task v.task_keys found
          db.staff (λ i. ground arith) v.staff;
  }

  -- The rows of a resource that may be given back.
  abbrev pub released : {R : Type 0} → (R → ℕ) → (R → R) → Option ℕ → List R → List R
  released key f none rows = rows
  released key f (some k) rows = update_where (has_key key k) f rows

  -- The writes of a change of the task's row by which it stops being active.
  pub released-WithinCapacity :
      (g : TaskModel F → TaskModel F) (now now' : ℕ) (staff_id machine_id : Option ℕ)
      (f : StaffModel F → StaffModel F) (orders : List OrderModel) (events : List DomainEventModel)
      → ((t : TaskModel F) → (g t).id ≡ t.id)
      → is_active (g task).status ≡ false
      → is_active task.status ≡ true
      → task.assigned_staff_id ≡ staff_id
      → task.assigned_machine_id ≡ machine_id
      → ((r : StaffModel F)
          → ((f r).id ≡ r.id)
            × ((f r).active_tasks ≡ greatest_add r.active_tasks (negsuc 0))
            × ((f r).max_parallel ≡ r.max_parallel))
      → WithinCapacity (record db {
        orders = orders;
        tasks = update_where (has_key (λ t. t.id) task.id) g db.tasks;
        counters =
            update_where
              (has_key (λ c. c.id) task.counter_id)
              (use_counter (negsuc 0) now)
              db.counters;
        machines = released (λ m. m.id) (use_machine (negsuc 0) now') machine_id db.machines;
        staff = released (λ r. r.id) f staff_id db.staff;
        domain_events = events;
      })
  released-WithinCapacity g now now' staff_id machine_id f orders events same idle active es em
        effect =
      record {
        task_keys = update_where-IsKeyed _ _ g db.tasks same v.task_keys;
        counter_keys = update_where-IsKeyed _ _ _ db.counters (λ r. refl) v.counter_keys;
        machine_keys = machine_keys machine_id;
        staff_keys = staff_keys staff_id;
        counters =
            Balanced-drop _ _ _ _ on_counter task.id g db.tasks task v.task_keys found
              task.counter_id (use_counter (negsuc 0) now) db.counters (λ i. ground arith)
              (λ i. ground arith) (λ r. (refl, omega arith, refl)) v.counters;
        machines = machines machine_id em;
        staff = staff staff_id es;
      }
    where
      machine_keys :
          (o : Option ℕ)
          → IsKeyed (λ m. m.id) (released (λ m. m.id) (use_machine (negsuc 0) now') o db.machines)
      machine_keys none = v.machine_keys
      machine_keys (some k) = update_where-IsKeyed _ _ _ db.machines (λ r. refl) v.machine_keys

      staff_keys : (o : Option ℕ) → IsKeyed (λ r. r.id) (released (λ r. r.id) f o db.staff)
      staff_keys none = v.staff_keys
      staff_keys (some k) = update_where-IsKeyed _ _ f db.staff (λ r. (effect r).0) v.staff_keys

      machines :
          (o : Option ℕ)
          → task.assigned_machine_id ≡ o
          → Balanced
              (λ m. m.id)
              (λ m. m.in_use)
              (λ m. m.capacity)
              (λ t. t.id)
              on_machine
              (released (λ m. m.id) (use_machine (negsuc 0) now') o db.machines)
              (update_where (has_key (λ t. t.id) task.id) g db.tasks)
      machines none e =
          Balanced-keep _ _ _ _ on_machine task.id g db.tasks task v.task_keys found db.machines
            (λ i. ground arith) v.machines
      machines (some k) e =
          Balanced-drop _ _ _ _ on_machine task.id g db.tasks task v.task_keys found k
            (use_machine (negsuc 0) now') db.machines (λ i. ground arith) (λ i. ground arith)
            (λ r. (refl, omega arith, refl)) v.machines

      staff :
          (o : Option ℕ)
          → task.assigned_staff_id ≡ o
          → Balanced
              (λ r. r.id)
              (λ r. r.active_tasks)
              (λ r. r.max_parallel)
              (λ t. t.id)
              on_staff
              (released (λ r. r.id) f o db.staff)
              (update_where (has_key (λ t. t.id) task.id) g db.tasks)
      staff none e =
          Balanced-keep _ _ _ _ on_staff task.id g db.tasks task v.task_keys found db.staff
            (λ i. ground arith) v.staff
      staff (some k) e =
          Balanced-drop _ _ _ _ on_staff task.id g db.tasks task v.task_keys found k f db.staff
            (λ i. ground arith) (λ i. ground arith)
            (λ r. ((effect r).0, ground (arith, effect r), (effect r).2)) v.staff
