-- ===== src/Consistency/Capacity/Requeue.antt =====
-- The requeue of expired assignments keeps the capacity invariant:
-- repository.RequeueExpiredAssignedTasks.
use kitchen_ops.Base.{
  ℕ, ◌≡◌, refl, Option, none, some, List, arith, negsuc, Option-cases, inl, inr, greatest_add,
}
use kitchen_ops.Models.{TaskModel, StaffModel, DomainEventModel}
use kitchen_ops.Runtime.{Services, Kitchen}
use kitchen_ops.Runtime.Outcomes.{OnOk, on_tx-OnOk, Preserves}
use kitchen_ops.Repository.Lifecycle.{
  requeue_row, release_staff, release_machine, requeue_task, requeue_body,
}
use kitchen_ops.Repository.Events.{insert_domain_event}
use kitchen_ops.Consistency.Expired.{IsRequeueable, Requeued, requeue_body-Preserves}
use kitchen_ops.Consistency.Capacity.{WithinCapacity}
use kitchen_ops.Consistency.Capacity.Release.{released-WithinCapacity}

module _ {F Q : Type 0} (w : Services F Q) where
  abbrev less_active : StaffModel F → StaffModel F
  less_active r = record r { active_tasks = greatest_add r.active_tasks (negsuc 0) }

  -- Each requeued task gives its counter, machine and staff member back.
  requeue_task-Requeued :
      (task : TaskModel F) (s : Kitchen F Q)
      → WithinCapacity s.db
      → IsRequeueable s.db.tasks task
      → OnOk (Requeued WithinCapacity s task) (requeue_task w task s)
  unfolding requeue_task release_staff release_machine insert_domain_event
  requeue_task-Requeued task s v (found, active) =
      let freed =
        λ (now now' : ℕ) (so mo : Option ℕ) (events : List DomainEventModel)
            (es : task.assigned_staff_id ≡ so) (em : task.assigned_machine_id ≡ mo).
          released-WithinCapacity s.db task v found requeue_row now now' so mo less_active
            s.db.orders events (λ t. refl) refl (ground arith) es em (λ r. (refl, refl, refl)) in
      on_tx-OnOk w (Requeued WithinCapacity s task) _ _ s
        (elim (Option-cases task.assigned_staff_id) [
          | inl es ↦ elim (Option-cases task.assigned_machine_id) [
            | inl em ↦
                rw (es, em)
                  (on_tx-OnOk w (Requeued WithinCapacity s task) _ _ _ (
                    on_tx-OnOk w (Requeued WithinCapacity s task) _ _ _
                      (freed _ 0 none none _ es em, refl)))
            | inr (m, em) ↦
                rw (es, em)
                  (on_tx-OnOk w (Requeued WithinCapacity s task) _ _ _ (
                    on_tx-OnOk w (Requeued WithinCapacity s task) _ _ _ (
                      on_tx-OnOk w (Requeued WithinCapacity s task) _ _ _
                        (freed _ _ none (some m) _ es em, refl))))
          ]
          | inr (i, es) ↦ elim (Option-cases task.assigned_machine_id) [
            | inl em ↦
                rw (es, em)
                  (on_tx-OnOk w (Requeued WithinCapacity s task) _ _ _ (
                    on_tx-OnOk w (Requeued WithinCapacity s task) _ _ _ (
                      on_tx-OnOk w (Requeued WithinCapacity s task) _ _ _
                        (freed _ 0 (some i) none _ es em, refl))))
            | inr (m, em) ↦
                rw (es, em)
                  (on_tx-OnOk w (Requeued WithinCapacity s task) _ _ _ (
                    on_tx-OnOk w (Requeued WithinCapacity s task) _ _ _ (
                      on_tx-OnOk w (Requeued WithinCapacity s task) _ _ _ (
                        on_tx-OnOk w (Requeued WithinCapacity s task) _ _ _
                          (freed _ _ (some i) (some m) _ es em, refl)))))
          ]
        ])

  -- A pass over the expired assignments keeps the invariant.
  pub requeue_body-WithinCapacity :
      (cutoff limit : ℕ) → Preserves {F = F} {Q = Q} WithinCapacity (requeue_body w cutoff limit)
  requeue_body-WithinCapacity =
      requeue_body-Preserves w WithinCapacity (λ db v. v.task_keys) requeue_task-Requeued
