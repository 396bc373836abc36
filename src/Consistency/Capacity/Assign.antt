-- ===== src/Consistency/Capacity/Assign.antt =====
-- The assignment keeps the capacity invariant: application.AllocateOnce's transaction.
use kitchen_ops.Base.{
  ℕ, ◌≡◌, refl, Bool, true, some, List, [], ◌∷◌, IsKeyed, All, arith, find?, has_key, ltb, ltb→lt,
  find-holds, find_by_key, update_where-IsKeyed, if_elim, All-sort, All-found, All-append, where_,
  All-where_self, if◌then◌else◌,
}
use kitchen_ops.Models.{TaskModel, StaffModel, CounterModel, MachineModel, Database, is_unassigned}
use kitchen_ops.Runtime.{Services, Kitchen, Float64, arrange}
use kitchen_ops.Runtime.Outcomes.{OnOk, on_tx-OnOk, or_throw-OnOk, guard-OnOk, read_OnOk}
use kitchen_ops.Repository.Allocation.{
  lock_task_for_assignment, find_eligible_staff, lock_counter, lock_machine_for_task, lock_staff,
  update_task_assignment, increment_staff_active_tasks, is_eligible, join, for_each,
}
use kitchen_ops.Repository.Lifecycle.{increment_counter_usage, increment_machine_usage}
use kitchen_ops.Repository.Orders.{mark_order_in_progress_if_confirmed}
use kitchen_ops.Repository.Events.{insert_domain_event}
use kitchen_ops.Application.Scores.{staff_score, pick_from, pick_staff}
use kitchen_ops.Application.Allocation.{record_assignment, assign_among, assign_task}
use kitchen_ops.Consistency.Balance.{Balanced-take, room_of_found}
use kitchen_ops.Consistency.Capacity.{WithinCapacity, on_counter, on_machine, on_staff}

module _ {F : Type 0} (db : Database F) where
  -- The row is in the table, and its staff member can take one more task.
  abbrev IsFree : StaffModel F → Type 0
  IsFree r =
      (find? (has_key (λ x. x.id) r.id) db.staff ≡ some r)
      × (ltb r.active_tasks r.max_parallel ≡ true)

module _ {F : Type 0} (fl : Float64 F) (P : StaffModel F → Type 0) where
  pick_from-All :
      (now : ℕ) (best : StaffModel F) (score : F) (rest : List (StaffModel F))
      → P best
      → All P rest
      → P (pick_from fl now best score rest)
  unfolding pick_from
  pick_from-All now best score [] p h = p
  pick_from-All now best score (st ∷ rest) p h =
      let better = fl.lt (staff_score fl now st) score in
      pick_from-All now (if better then st else best)
        (if better then staff_score fl now st else score) rest (if_elim P better h.0 p) h.1

  pub pick_staff-All :
      (now : ℕ) (first : StaffModel F) (rest : List (StaffModel F))
      → All P (first ∷ rest)
      → P (pick_staff fl now first rest)
  unfolding pick_staff
  pick_staff-All now first rest h = pick_from-All now first _ rest h.0 h.1

module _ {F Q : Type 0} (w : Services F Q) where
  -- The writes of an assignment whose task, counter, machine and staff member were checked.
  record_assignment-WithinCapacity :
      (now : ℕ) (task : TaskModel F) (pick : StaffModel F) (machine : MachineModel)
      (c : CounterModel) (s : Kitchen F Q)
      → WithinCapacity s.db
      → find? (has_key (λ t. t.id) task.id) s.db.tasks ≡ some task
      → is_unassigned task.status ≡ true
      → find? (has_key (λ x. x.id) task.counter_id) s.db.counters ≡ some c
      → ltb c.in_use c.capacity ≡ true
      → find? (has_key (λ x. x.id) machine.id) s.db.machines ≡ some machine
      → ltb machine.in_use machine.capacity ≡ true
      → IsFree s.db pick
      → OnOk (λ _ s'. WithinCapacity s'.db) (record_assignment w now task pick.id machine.id s)
  unfolding record_assignment update_task_assignment increment_counter_usage increment_machine_usage
      mark_order_in_progress_if_confirmed increment_staff_active_tasks insert_domain_event
  record_assignment-WithinCapacity now task pick machine c s v found free foundc roomc foundm roomm
        staff =
      on_tx-OnOk w _ _ _ s (
        on_tx-OnOk w _ _ _ _ (
          on_tx-OnOk w _ _ _ _ (
            on_tx-OnOk w _ _ _ _ (
              on_tx-OnOk w _ _ _ _ (
                on_tx-OnOk w _ _ _ _ (record {
                  task_keys = update_where-IsKeyed _ _ _ s.db.tasks (λ t. refl) v.task_keys;
                  counter_keys =
                      update_where-IsKeyed _ _ _ s.db.counters (λ r. refl) v.counter_keys;
                  machine_keys =
                      update_where-IsKeyed _ _ _ s.db.machines (λ r. refl) v.machine_keys;
                  staff_keys = update_where-IsKeyed _ _ _ s.db.staff (λ r. refl) v.staff_keys;
                  counters =
                      Balanced-take _ _ _ _ on_counter task.id _ s.db.tasks task v.task_keys found
                        task.counter_id _ s.db.counters (λ i. ground arith) (λ i. ground arith)
                        (λ r. (refl, refl, refl))
                        (room_of_found _ _ _ task.counter_id s.db.counters c v.counter_keys foundc
                          (ltb→lt _ _ roomc))
                        v.counters;
                  machines =
                      Balanced-take _ _ _ _ on_machine task.id _ s.db.tasks task v.task_keys found
                        machine.id _ s.db.machines (λ i. ground arith) (λ i. ground arith)
                        (λ r. (refl, refl, refl))
                        (room_of_found _ _ _ machine.id s.db.machines machine v.machine_keys foundm
                          (ltb→lt _ _ roomm))
                        v.machines;
                  staff =
                      Balanced-take _ _ _ _ on_staff task.id _ s.db.tasks task v.task_keys found
                        pick.id _ s.db.staff (λ i. ground arith) (λ i. ground arith)
                        (λ r. (refl, refl, refl))
                        (room_of_found _ _ _ pick.id s.db.staff pick v.staff_keys staff.0
                          (ltb→lt _ _ staff.1))
                        v.staff;
                }))))))

module _ {A B : Type 0} (P R : A → Type 0) (on : A → B → Bool)
    (pass : (a : A) (b : B) → P a → on a b ≡ true → R a) where
  for_each-All : (a : A) (bs : List B) → P a → All (λ b. on a b ≡ true) bs → All R (for_each a bs)
  for_each-All a [] p h = tt
  for_each-All a (b ∷ bs) p h = (pass a b p h.0, for_each-All a bs p h.1)

  join-All : (xs : List A) (bs : List B) → All P xs → All R (join on xs bs)
  join-All [] bs h = tt
  join-All (a ∷ xs) bs h =
      All-append R (for_each a (where_ (on a) bs)) _
        (for_each-All a (where_ (on a) bs) h.0 (All-where_self (on a) bs)) (join-All xs bs h.1)

-- The staff that the query returns are rows of the table that can take one more task.
eligible-IsFree :
    {F Q : Type 0} (w : Services F Q) (db : Database F) (n counter_id now : ℕ)
    → IsKeyed (λ r. r.id) db.staff
    → All
        (IsFree db)
        (join (is_eligible counter_id now) (arrange w n (λ r. r.id) db.staff) db.staff_skills)
eligible-IsFree w db n counter_id now keyed =
    join-All (λ r. find? (has_key (λ x. x.id) r.id) db.staff ≡ some r) (IsFree db)
      (is_eligible counter_id now) (λ r sk found e. (found, ground arith)) _ db.staff_skills
      (All-sort _ _ db.staff (All-found (λ r. r.id) db.staff keyed))

module _ {F Q : Type 0} (w : Services F Q) where
  assign_among-WithinCapacity :
      (now : ℕ) (task : TaskModel F) (c : CounterModel) (staff_list : List (StaffModel F))
      (s : Kitchen F Q)
      → WithinCapacity s.db
      → find? (has_key (λ t. t.id) task.id) s.db.tasks ≡ some task
      → is_unassigned task.status ≡ true
      → find? (has_key (λ x. x.id) task.counter_id) s.db.counters ≡ some c
      → ltb c.in_use c.capacity ≡ true
      → All (IsFree s.db) staff_list
      → OnOk (λ _ s'. WithinCapacity s'.db) (assign_among w now task staff_list s)
  unfolding assign_among lock_machine_for_task lock_staff
  assign_among-WithinCapacity now task c [] s v found free foundc roomc all = tt
  assign_among-WithinCapacity now task c (first ∷ rest) s v found free foundc roomc all =
      or_throw-OnOk _ task.machine_id _ _ s λ machine_id _. read_OnOk w _ _ _ _ _ λ machine foundm.
        read_OnOk w _ _ _ _ _ λ _ _.
          let passed = find-holds _ s.db.machines machine foundm in
          record_assignment-WithinCapacity w now task (pick_staff w.float now first rest) machine c
            _ v found free foundc roomc
            (find_by_key (λ m. m.id) _ s.db.machines machine v.machine_keys foundm) (ground arith)
            (pick_staff-All w.float (IsFree s.db) now first rest all)

  -- An assignment that commits leaves every counter, machine and staff member within its
  -- capacity, and their use the number of active tasks.
  pub assign_task-WithinCapacity :
      (now task_id : ℕ) (s : Kitchen F Q)
      → WithinCapacity s.db
      → OnOk (λ _ s'. WithinCapacity s'.db) (assign_task w now task_id s)
  unfolding assign_task lock_task_for_assignment lock_counter find_eligible_staff
  assign_task-WithinCapacity now task_id s v = read_OnOk w _ _ _ _ s λ task foundt.
      read_OnOk w _ _ _ _ _ λ c foundc. guard-OnOk _ _ _ _ _ λ roomc. on_tx-OnOk w _ _ _ _ (
        let passed = find-holds _ s.db.tasks task foundt in
        assign_among-WithinCapacity now task c _ _ v
          (find_by_key (λ t. t.id) _ s.db.tasks task v.task_keys foundt) (ground arith) foundc roomc
          (eligible-IsFree w s.db _ task.counter_id now v.staff_keys))
