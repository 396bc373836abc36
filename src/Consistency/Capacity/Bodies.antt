-- ===== src/Consistency/Capacity/Bodies.antt =====
-- The bodies of StartTask's and CompleteTask's transactions keep the capacity invariant.
use kitchen_ops.Base.{
  ℕ, refl, Bool, false, ◌&&◌, some, List, [], ◌∷◌, ◌==◌, arith, ltb, Bytes, codes, find_by_key,
  update_where, update_where-IsKeyed, if◌then◌else◌,
}
use kitchen_ops.Base.Decimal.{format_uint}
use kitchen_ops.Models.{
  TaskModel, DomainEvent, EventType, DomainEventModel, OrderModel, Database, is_unassigned,
}
use kitchen_ops.Runtime.{Services, Kitchen, pure, ◌>>◌}
use kitchen_ops.Runtime.Outcomes.{
  OnOk, on_tx-OnOk, call-OnOk, or_throw-OnOk, bind_OnOk, on_tx_last, Preserves, bind-Preserves,
  on_tx-Preserves, if_Preserves,
}
use kitchen_ops.Repository.Lifecycle.{
  complete_row, increment_counter_usage, increment_machine_usage,
  update_staff_efficiency_and_active, decrement_dependent_pending_deps, unblock_row,
}
use kitchen_ops.Repository.Lifecycle.Outcomes.{started_OnOk, completed_OnOk}
use kitchen_ops.Repository.Orders.{
  mark_order_part_completed_if_not_done, close_order, complete_order_if_all_tasks_done,
}
use kitchen_ops.Repository.Events.{insert_domain_event}
use kitchen_ops.Application.Scores.{enqueue}
use kitchen_ops.Application.Tasks.{
  start_body, announce_child, announce_ready, complete_body, task_event,
}
use kitchen_ops.Consistency.Balance.{Balanced-keep_all}
use kitchen_ops.Consistency.Capacity.{WithinCapacity, on_counter, on_machine, on_staff}
use kitchen_ops.Consistency.Capacity.Release.{started-WithinCapacity, released-WithinCapacity}

abbrev Safe : {F Q : Type 0} → Unit {0} → Kitchen F Q → Type 0
Safe _ t = WithinCapacity t.db

module _ {F Q : Type 0} (w : Services F Q) where
  -- Starting a task moves no resource.
  pub start_body-WithinCapacity :
      (now task_id : ℕ) (s : Kitchen F Q)
      → WithinCapacity s.db
      → OnOk (λ _ s'. WithinCapacity s'.db) (start_body w now task_id s)
  unfolding start_body insert_domain_event
  start_body-WithinCapacity now task_id s v =
      started_OnOk w (λ _ s'. WithinCapacity s'.db) task_id now _ s
        λ task found ready. or_throw-OnOk _ task.assigned_machine_id _ _ _ λ _ _.
          on_tx_last w (λ _ s'. WithinCapacity s'.db) _ _
            (started-WithinCapacity s.db task v
              (find_by_key (λ t. t.id) _ s.db.tasks task v.task_keys found) now _ ready)

  -- A change of tasks that leaves their ids and what they hold alone.
  unblocked-WithinCapacity :
      (p : TaskModel F → Bool) (db : Database F)
      → WithinCapacity db
      → WithinCapacity (record db { tasks = update_where p unblock_row db.tasks })
  unblocked-WithinCapacity p db v = record {
    task_keys = update_where-IsKeyed _ p unblock_row db.tasks (λ t. refl) v.task_keys;
    counter_keys = v.counter_keys;
    machine_keys = v.machine_keys;
    staff_keys = v.staff_keys;
    counters =
        Balanced-keep_all _ _ _ (λ t. t.id) on_counter p unblock_row db.tasks db.counters
          (λ i t. refl) v.counters;
    machines =
        Balanced-keep_all _ _ _ (λ t. t.id) on_machine p unblock_row db.tasks db.machines
          (λ i t. refl) v.machines;
    staff =
        Balanced-keep_all _ _ _ (λ t. t.id) on_staff p unblock_row db.tasks db.staff (λ i t. refl)
          v.staff;
  }

  -- Orders and events are not part of the invariant.
  aside :
      (db : Database F) (orders : List OrderModel) (events : List DomainEventModel)
      → WithinCapacity db
      → WithinCapacity (record db { orders = orders; domain_events = events })
  aside db orders events v = record {
    task_keys = v.task_keys;
    counter_keys = v.counter_keys;
    machine_keys = v.machine_keys;
    staff_keys = v.staff_keys;
    counters = v.counters;
    machines = v.machines;
    staff = v.staff;
  }

  insert_domain_event-Preserves :
      (a b : Bytes) (e : DomainEvent)
      → Preserves {F = F} {Q = Q} WithinCapacity (insert_domain_event w a b e)
  unfolding insert_domain_event
  insert_domain_event-Preserves a b e = on_tx-Preserves w WithinCapacity _ (λ s v. aside s.db _ _ v)

  announce_child-Preserves :
      (now : ℕ) (child : TaskModel F)
      → Preserves {F = F} {Q = Q} WithinCapacity (announce_child w now child)
  unfolding announce_child enqueue insert_domain_event
  announce_child-Preserves now child s v =
      call-OnOk w (λ _ s'. WithinCapacity s'.db) _ _ s
        (on_tx_last w (λ _ s'. WithinCapacity s'.db) _ _ (aside s.db _ _ v))

  announce_ready-Preserves :
      (now : ℕ) (children : List (TaskModel F))
      → Preserves {F = F} {Q = Q} WithinCapacity (announce_ready w now children)
  unfolding announce_ready
  announce_ready-Preserves now [] = λ s v. v
  announce_ready-Preserves now (child ∷ children) =
      let is_ready = is_unassigned child.status && (child.pending_deps == 0) in
      bind-Preserves WithinCapacity (if is_ready then announce_child w now child else pure tt)
        (λ _. announce_ready w now children)
        (if_Preserves WithinCapacity is_ready (announce_child w now child) (pure tt)
          (announce_child-Preserves now child) (λ s v. v))
        (λ _. announce_ready-Preserves now children)

  decrement-Preserves :
      (task_id : ℕ)
      → Preserves {F = F} {Q = Q} WithinCapacity (decrement_dependent_pending_deps w task_id)
  unfolding decrement_dependent_pending_deps
  decrement-Preserves task_id s v =
      on_tx-OnOk w (λ _ s'. WithinCapacity s'.db) _ _ s
        (on_tx_last w (λ _ s'. WithinCapacity s'.db) _ _ (unblocked-WithinCapacity _ s.db v))

  mark_order_part_completed-Preserves :
      (order_id : ℕ)
      → Preserves {F = F} {Q = Q} WithinCapacity (mark_order_part_completed_if_not_done w order_id)
  unfolding mark_order_part_completed_if_not_done
  mark_order_part_completed-Preserves order_id =
      on_tx-Preserves w WithinCapacity _ (λ s v. aside s.db _ _ v)

  close_order-Preserves :
      (order_id : ℕ) → Preserves {F = F} {Q = Q} WithinCapacity (close_order w order_id)
  unfolding close_order
  close_order-Preserves order_id s v =
      on_tx-OnOk w (λ _ t. WithinCapacity t.db) _ _ s (aside s.db _ _ v)

  complete_order-Preserves :
      (order_id : ℕ)
      → Preserves {F = F} {Q = Q} WithinCapacity (complete_order_if_all_tasks_done w order_id)
  unfolding complete_order_if_all_tasks_done
  complete_order-Preserves order_id s v =
      on_tx-OnOk w (λ _ s'. WithinCapacity s'.db) _
        (λ remaining. if ltb 0 remaining then pure false else close_order w order_id) s
        (if_Preserves WithinCapacity _ (pure false) (close_order w order_id) (λ s' v'. v')
          (close_order-Preserves order_id) _ v)

  complete_tail-Preserves :
      (now : ℕ) (task : TaskModel F) (children : List (TaskModel F))
      → Preserves {F = F} {Q = Q} WithinCapacity do
        announce_ready w now children
        insert_domain_event w
            (codes "task")
            (format_uint task.id)
            (task_event EventType.task_completed now task.id)
        mark_order_part_completed_if_not_done w task.order_id
        complete_order_if_all_tasks_done w task.order_id
        pure tt
  complete_tail-Preserves now task children s v =
      bind_OnOk Safe Safe (announce_ready w now children s) _
        (announce_ready-Preserves now children s v)
        λ _ s₁ v₁.
          bind_OnOk Safe Safe (insert_domain_event w _ _ _ s₁) _
            (insert_domain_event-Preserves _ _ _ s₁ v₁)
            λ _ s₂ v₂.
              bind_OnOk Safe Safe (mark_order_part_completed_if_not_done w task.order_id s₂) _
                (mark_order_part_completed-Preserves task.order_id s₂ v₂)
                λ _ s₃ v₃.
                  bind_OnOk (λ _ t. WithinCapacity t.db) Safe
                    (complete_order_if_all_tasks_done w task.order_id s₃) _
                    (complete_order-Preserves task.order_id s₃ v₃) λ _ s₄ v₄. v₄

  -- Completing a task gives its counter, machine and staff member back.
  pub complete_body-WithinCapacity :
      (now task_id : ℕ) (s : Kitchen F Q)
      → WithinCapacity s.db
      → OnOk (λ _ s'. WithinCapacity s'.db) (complete_body w now task_id s)
  unfolding complete_body increment_counter_usage increment_machine_usage
      update_staff_efficiency_and_active
  complete_body-WithinCapacity now task_id s v =
      completed_OnOk w Safe task_id now _ s λ task found ready.
        or_throw-OnOk Safe task.assigned_machine_id _ _ _ λ machine_id em.
          or_throw-OnOk Safe task.assigned_staff_id _ _ _ λ staff_id es.
            or_throw-OnOk Safe task.started_at _ _ _ λ started_at _. on_tx-OnOk w Safe _ _ _ (
              on_tx-OnOk w Safe _ _ _ (
                on_tx-OnOk w Safe _ _ _ (
                  bind_OnOk (λ _ s'. WithinCapacity s'.db) Safe _ _
                    (decrement-Preserves task.id _ (
                      released-WithinCapacity s.db task v
                        (find_by_key (λ t. t.id) _ s.db.tasks task v.task_keys found)
                        (complete_row now) _ _ (some staff_id) (some machine_id) _ _ _ (λ t. refl)
                        refl (ground arith) es em (λ r. (refl, refl, refl))))
                    λ children s' v'. complete_tail-Preserves now task children s' v')))
