-- ===== src/Consistency/Board/Bodies.antt =====
-- Each transaction's body makes a move of the board, or none.
use kitchen_ops.Base.{
  ℕ, ◌≡◌, refl, true, some, List, [], ◌∷◌, find?, has_key, find-holds, find_by_key, ltb, IsKeyed,
  arith, Option-cases, inl, inr,
}
use kitchen_ops.Models.{TaskModel, StaffModel, Database, is_unassigned}
use kitchen_ops.Runtime.{Services, Kitchen, counter_busy}
use kitchen_ops.Runtime.Outcomes.{
  OnOk, on_tx-OnOk, or_throw-OnOk, guard-OnOk, read_OnOk, Preserves, OnOk-map,
}
use kitchen_ops.Repository.Allocation.{
  lock_task_for_assignment, find_eligible_staff, lock_counter, lock_machine_for_task, lock_staff,
  update_task_assignment, increment_staff_active_tasks,
}
use kitchen_ops.Repository.Lifecycle.{
  increment_counter_usage, increment_machine_usage, requeue_row, release_staff, release_machine,
  requeue_task,
}
use kitchen_ops.Repository.Orders.{mark_order_in_progress_if_confirmed}
use kitchen_ops.Repository.Events.{insert_domain_event}
use kitchen_ops.Application.Scores.{pick_staff}
use kitchen_ops.Application.Allocation.{record_assignment, assign_among, assign_task}
use kitchen_ops.Application.Tasks.{start_body, complete_body}
use kitchen_ops.Consistency.Expired.{IsRequeueable, Requeued}
use kitchen_ops.Consistency.Board.Effects.{start_body-Started, complete_body-Completed}
use kitchen_ops.Consistency.Board.{
  Board, board, Move, assigns, starts, requeues, completes, Moves, next, Move-IsKeyed, set_row,
}

module _ {F Q : Type 0} (w : Services F Q) (from : Board F) where
  -- The board has come from `from` by moves.
  abbrev Reached : Board F → Type 0
  Reached b = IsKeyed (λ t. t.id) b.tasks × Moves from b

  abbrev pub Traced : Database F → Type 0
  Traced db = Reached (board db)

  abbrev Safe : {A : Type 0} → A → Kitchen F Q → Type 0
  Safe _ s = Traced s.db

  Reached-Move : (b c : Board F) → Reached b → Move b c → Reached c
  Reached-Move b c (keyed, moves) move = (Move-IsKeyed move keyed, next moves move)

  record_assignment-Traced :
      (now staff_id machine_id : ℕ) (task : TaskModel F) (s : Kitchen F Q)
      → find? (has_key (λ t. t.id) task.id) s.db.tasks ≡ some task
      → is_unassigned task.status ≡ true
      → task.pending_deps ≡ 0
      → Traced s.db
      → OnOk Safe (record_assignment w now task staff_id machine_id s)
  unfolding record_assignment update_task_assignment increment_counter_usage increment_machine_usage
      mark_order_in_progress_if_confirmed increment_staff_active_tasks insert_domain_event
  record_assignment-Traced now staff_id machine_id task s found free ready e =
      on_tx-OnOk w Safe _ _ s (
        on_tx-OnOk w Safe _ _ _ (
          on_tx-OnOk w Safe _ _ _ (
            on_tx-OnOk w Safe _ _ _ (
              on_tx-OnOk w Safe _ _ _ (
                on_tx-OnOk w Safe _ _ _ (
                  Reached-Move (board s.db) _ e
                    (assigns task staff_id machine_id now found free ready refl)))))))

  assign_among-Traced :
      (now : ℕ) (task : TaskModel F) (staff_list : List (StaffModel F)) (s : Kitchen F Q)
      → find? (has_key (λ t. t.id) task.id) s.db.tasks ≡ some task
      → is_unassigned task.status ≡ true
      → task.pending_deps ≡ 0
      → Traced s.db
      → OnOk Safe (assign_among w now task staff_list s)
  unfolding assign_among lock_machine_for_task lock_staff
  assign_among-Traced now task [] s found free ready e = tt
  assign_among-Traced now task (first ∷ rest) s found free ready e =
      or_throw-OnOk Safe task.machine_id _ _ s λ machine_id _. read_OnOk w Safe _ _ _ _ λ machine _.
        read_OnOk w Safe _ _ _ _ λ _ _.
          record_assignment-Traced now (pick_staff w.float now first rest).id machine.id task _
            found free ready e

  pub assign_task-Traced :
      (now task_id : ℕ) → Preserves {F = F} {Q = Q} Traced (assign_task w now task_id)
  unfolding assign_task lock_task_for_assignment lock_counter find_eligible_staff
  assign_task-Traced now task_id s e = read_OnOk w Safe _ _ _ s λ task foundt.
      read_OnOk w Safe _ _ _ _ λ c _.
        guard-OnOk (Safe {A = ℕ}) (ltb c.in_use c.capacity) counter_busy _ _ λ _.
          on_tx-OnOk w Safe _ _ _ (
            let passed = find-holds _ s.db.tasks task foundt in
            assign_among-Traced now task _ _ (find_by_key (λ t. t.id) _ s.db.tasks task e.0 foundt)
              (ground arith) (ground arith) e)

  pub start_body-Traced :
      (now task_id : ℕ) → Preserves {F = F} {Q = Q} Traced (start_body w now task_id)
  start_body-Traced now task_id s e =
      OnOk-map _ Safe (start_body w now task_id s) (start_body-Started w now task_id s)
        λ _ t (task, found, ready, eq).
          Reached-Move (board s.db) (board t.db) e
            (starts task now (find_by_key (λ t. t.id) _ s.db.tasks task e.0 found) ready eq)

  pub requeue_task-Traced :
      (task : TaskModel F) (s : Kitchen F Q)
      → Traced s.db
      → IsRequeueable s.db.tasks task
      → OnOk (Requeued Traced s task) (requeue_task w task s)
  unfolding requeue_task release_staff release_machine insert_domain_event
  requeue_task-Traced task s e (found, active) =
      on_tx-OnOk w P _ _ s (elim (Option-cases task.assigned_staff_id) [
        | inl es ↦ elim (Option-cases task.assigned_machine_id) [
          | inl em ↦ rw (es, em) (on_tx-OnOk w P _ _ _ (on_tx-OnOk w P _ _ _ (e', refl)))
          | inr (m, em) ↦
              rw (es, em)
                (on_tx-OnOk w P _ _ _ (on_tx-OnOk w P _ _ _ (on_tx-OnOk w P _ _ _ (e', refl))))
        ]
        | inr (i, es) ↦ elim (Option-cases task.assigned_machine_id) [
          | inl em ↦
              rw (es, em)
                (on_tx-OnOk w P _ _ _ (on_tx-OnOk w P _ _ _ (on_tx-OnOk w P _ _ _ (e', refl))))
          | inr (m, em) ↦
              rw (es, em)
                (on_tx-OnOk w P _ _ _
                  (on_tx-OnOk w P _ _ _ (on_tx-OnOk w P _ _ _ (on_tx-OnOk w P _ _ _ (e', refl)))))
        ]
      ])
    where
      P : TaskModel F → Kitchen F Q → Type 0
      P = Requeued Traced s task

      e' : Reached (record (board s.db) { tasks = set_row task.id requeue_row s.db.tasks })
      e' = Reached-Move (board s.db) _ e (requeues task found active refl)

  pub complete_body-Traced :
      (now task_id : ℕ) → Preserves {F = F} {Q = Q} Traced (complete_body w now task_id)
  complete_body-Traced now task_id s e =
      OnOk-map _ Safe (complete_body w now task_id s) (complete_body-Completed w now task_id s)
        λ _ t (task, found, ready, eq).
          Reached-Move (board s.db) (board t.db) e
            (completes task now (find_by_key (λ t. t.id) _ s.db.tasks task e.0 found) ready eq)
