-- ===== src/Application/Allocation/Success.antt =====
-- An assignment succeeds where no call fails and its resources are free.
use kitchen_ops.Base.{
  ℕ, ◌+◌, ◌≡◌, ◌≢◌, refl, Bool, true, false, ◌&&◌, not, none, some, List, [], ◌∷◌, find?, has_key,
  find_by_key, find-update_self, if_elim, All, All-map, All-append, All-sort, where_, ==-self, ◌==◌,
  update_where, IsKeyed, ltb, Bool-cases, inl, inr, arith,
}
use kitchen_ops.Models.{TaskModel, StaffModel, CounterModel, MachineModel, Database}
use kitchen_ops.Runtime.{Services, Kitchen, Float64, arrange}
use kitchen_ops.Runtime.Success.{OnDone, on_tx-OnDone, read_OnDone, or_throw-OnDone}
use kitchen_ops.Repository.Allocation.{
  is_assignable, is_free_machine, is_eligible, assign_row, join, for_each, lock_task_for_assignment,
  lock_counter, find_eligible_staff, lock_machine_for_task, lock_staff, update_task_assignment,
  increment_staff_active_tasks,
}
use kitchen_ops.Repository.Lifecycle.{increment_counter_usage, increment_machine_usage}
use kitchen_ops.Repository.Orders.{mark_order_in_progress_if_confirmed}
use kitchen_ops.Repository.Events.{insert_domain_event}
use kitchen_ops.Application.Scores.{pick_from, pick_staff, staff_score}
use kitchen_ops.Application.Allocation.{record_assignment, assign_among, assign_task}

module _ {F : Type 0} (P : StaffModel F → Type 0) where
  -- The choice is one of the list.
  pick_from-All :
      (fl : Float64 F) (now : ℕ) (rest : List (StaffModel F)) (best : StaffModel F) (score : F)
      → P best
      → All P rest
      → P (pick_from fl now best score rest)
  unfolding pick_from
  pick_from-All fl now [] best score h hs = h
  pick_from-All fl now (r ∷ rest) best score h hs =
      pick_from-All fl now rest _ _ (if_elim P (fl.lt (staff_score fl now r) score) hs.0 h) hs.1

  pick_staff-All :
      (fl : Float64 F) (now : ℕ) (first : StaffModel F) (rest : List (StaffModel F))
      → P first
      → All P rest
      → P (pick_staff fl now first rest)
  unfolding pick_staff
  pick_staff-All fl now first rest h hs =
      pick_from-All fl now rest first (staff_score fl now first) h hs

  for_each-All : {B : Type 0} (r : StaffModel F) (bs : List B) → P r → All P (for_each r bs)
  for_each-All r [] h = tt
  for_each-All r (b ∷ bs) h = (h, for_each-All r bs h)

  join-All :
      {B : Type 0} (on : StaffModel F → B → Bool) (rs : List (StaffModel F)) (bs : List B)
      → All P rs
      → All P (join on rs bs)
  join-All on [] bs h = tt
  join-All on (r ∷ rs) bs h =
      All-append P (for_each r (where_ (on r) bs)) (join on rs bs)
        (for_each-All r (where_ (on r) bs) h.0) (join-All on rs bs h.1)

-- A row of the table is found by its id, itself or an earlier one.
abbrev IsFound : {F : Type 0} → List (StaffModel F) → StaffModel F → Type 0
IsFound {F} staff r = (x : StaffModel F) × (find? (has_key (λ y. y.id) r.id) staff ≡ some x)

IsFound-later :
    {F : Type 0} (s : StaffModel F) (staff : List (StaffModel F)) (r : StaffModel F)
    → IsFound staff r
    → IsFound (s ∷ staff) r
IsFound-later s staff r (x, found) = elim (Bool-cases (s.id == r.id)) [
  | inl hit ↦ rw hit (s, refl)
  | inr miss ↦ rw miss (x, found)
]

staff-AreFound : {F : Type 0} (staff : List (StaffModel F)) → All (IsFound staff) staff
staff-AreFound [] = tt
staff-AreFound (s ∷ staff) = (
  (s, ground (arith, ==-self s.id)),
  All-map (IsFound staff) (IsFound (s ∷ staff)) staff (IsFound-later s staff)
      (staff-AreFound staff),
)

-- What an assignment of the task at the time `now` needs: ids are a primary key; the task is
-- unassigned and waits for nothing; its counter has room; its machine is up and has room; a staff
-- member of its counter is available; and no other transaction holds the task's or the machine's row.
pub record CanBeAssigned {F Q : Type 0} (w : Services F Q) (now task_id : ℕ) (task : TaskModel F)
    (db : Database F) : Type 0 where
  pub keyed : IsKeyed (λ t. t.id) db.tasks
  pub waits :
      (n : ℕ) → find? (λ t. is_assignable task_id t && not (w.locked n t.id)) db.tasks ≡ some task
  pub counter : CounterModel
  pub at_counter : find? (has_key (λ c. c.id) task.counter_id) db.counters ≡ some counter
  pub has_room : ltb counter.in_use counter.capacity ≡ true
  pub machine_id : ℕ
  pub needs : task.machine_id ≡ some machine_id
  pub machine : MachineModel
  pub is_free :
      (n : ℕ)
      → find?
          (λ m. is_free_machine machine_id task.counter_id m && not (w.locked n m.id))
          db.machines
        ≡ some machine
  pub staffed :
      (n : ℕ)
      → join (is_eligible task.counter_id now) (arrange w n (λ r. r.id) db.staff) db.staff_skills
        ≢ []

-- The action's result is the task's id, and the task is assigned.
abbrev pub IsAssignedTo : {F Q : Type 0} → ℕ → TaskModel F → ℕ → Kitchen F Q → Type 0
IsAssignedTo now task id s =
    (s.aborted ≡ false)
    × ((id ≡ task.id)
        × ((staff_id machine_id : ℕ) × (find? (has_key (λ t. t.id) task.id) s.db.tasks
              ≡ some (assign_row staff_id machine_id now task))))

module _ {F Q : Type 0} (w : Services F Q) (quiet : (n : ℕ) → w.fails n ≡ none) where
  record_assignment_done :
      (now staff_id machine_id : ℕ) (task : TaskModel F) (s : Kitchen F Q)
      → s.aborted ≡ false
      → find? (has_key (λ t. t.id) task.id) s.db.tasks ≡ some task
      → OnDone (IsAssignedTo now task) (record_assignment w now task staff_id machine_id s)
  unfolding record_assignment update_task_assignment increment_counter_usage increment_machine_usage
      mark_order_in_progress_if_confirmed increment_staff_active_tasks insert_domain_event
  record_assignment_done now staff_id machine_id task s open_tx found =
      on_tx-OnDone w quiet P _ _ s open_tx (
        on_tx-OnDone w quiet P _ _ _ open_tx (
          on_tx-OnDone w quiet P _ _ _ open_tx (
            on_tx-OnDone w quiet P _ _ _ open_tx (
              on_tx-OnDone w quiet P _ _ _ open_tx (
                on_tx-OnDone w quiet P _ _ _ open_tx
                  (open_tx, (refl, (staff_id, machine_id, assigned))))))))
    where
      P : ℕ → Kitchen F Q → Type 0
      P = IsAssignedTo now task

      assigned :
          find? (has_key (λ t. t.id) task.id) (
            update_where
              (has_key (λ t. t.id) task.id)
              (assign_row staff_id machine_id now)
              s.db.tasks)
          ≡ some (assign_row staff_id machine_id now task)
      assigned =
          find-update_self (λ t. t.id) task.id (assign_row staff_id machine_id now) s.db.tasks task
            (λ r. refl) found

  assign_among_done :
      (now task_id machine_id : ℕ) (task : TaskModel F) (machine : MachineModel) (s : Kitchen F Q)
      (staff_list : List (StaffModel F))
      → s.aborted ≡ false
      → find? (has_key (λ t. t.id) task.id) s.db.tasks ≡ some task
      → task.machine_id ≡ some machine_id
      → ((n : ℕ)
          → find?
              (λ m. is_free_machine machine_id task.counter_id m && not (w.locked n m.id))
              s.db.machines
            ≡ some machine)
      → staff_list ≢ []
      → All (IsFound s.db.staff) staff_list
      → OnDone (IsAssignedTo now task) (assign_among w now task staff_list s)
  unfolding assign_among lock_machine_for_task lock_staff
  assign_among_done now task_id machine_id task machine s [] open_tx found needs free some_staff
        known =
      absurd (some_staff refl)
  assign_among_done now task_id machine_id task machine s (first ∷ rest) open_tx found needs free
        some_staff known =
      let (x, there) = pick_staff-All (IsFound s.db.staff) w.float now first rest known.0 known.1 in
      or_throw-OnDone P task.machine_id _ _ s machine_id needs (
        read_OnDone w quiet P _ _ _ s machine open_tx (free (s.calls + 1)) (
          read_OnDone w quiet P _ _ _ _ x open_tx there (
            record_assignment_done now (pick_staff w.float now first rest).id machine.id task _
              open_tx found)))
    where
      P : ℕ → Kitchen F Q → Type 0
      P = IsAssignedTo now task

  pub assign_task_done :
      (now task_id : ℕ) (task : TaskModel F) (s : Kitchen F Q)
      → s.aborted ≡ false
      → CanBeAssigned w now task_id task s.db
      → OnDone (IsAssignedTo now task) (assign_task w now task_id s)
  unfolding assign_task lock_task_for_assignment lock_counter find_eligible_staff
  assign_task_done now task_id task s open_tx ready =
      read_OnDone w quiet P _ _ _ s task open_tx (ready.waits (s.calls + 1)) (
        read_OnDone w quiet P _ _ _ _ ready.counter open_tx ready.at_counter (
          rw ready.has_room (
            on_tx-OnDone w quiet P _ _ _ open_tx (
              assign_among_done now task_id ready.machine_id task ready.machine _ _ open_tx
                (find_by_key (λ t. t.id) _ s.db.tasks task ready.keyed (ready.waits 0)) ready.needs
                ready.is_free (ready.staffed _)
                (join-All (IsFound s.db.staff) _ _ s.db.staff_skills
                  (All-sort (IsFound s.db.staff) _ s.db.staff (staff-AreFound s.db.staff)))))))
    where
      P : ℕ → Kitchen F Q → Type 0
      P = IsAssignedTo now task
