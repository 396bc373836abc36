-- ===== src/Consistency/Lifecycle/Runs.antt =====
-- Any sequence of requests moves task rows by the lifecycle's steps only.
use kitchen_ops.Base.{
  ℕ, ◌≡◌, refl, true, false, some, List, IsKeyed, find?, has_key, Option-cases, inl, inr, arith,
  ◌∙◌, sym, ap, subst,
}
use kitchen_ops.Models.{TaskModel, is_unassigned, is_completed}
use kitchen_ops.Runtime.{Services, Kitchen}
use kitchen_ops.Runtime.Outcomes.{OnOk, on_tx-OnOk}
use kitchen_ops.Repository.Lifecycle.{requeue_row, release_staff, release_machine, requeue_task}
use kitchen_ops.Repository.Events.{insert_domain_event}
use kitchen_ops.Consistency.Expired.{IsRequeueable, Requeued, requeue_body-Preserves}
use kitchen_ops.Consistency.Requests.{Request, serve_all, serve_all_keeps}
use kitchen_ops.Consistency.Lifecycle.{
  Step, assigns, starts, completes, requeues, unblocks, Reach, here, next, Evolved, Evolved-refl,
  Evolved-update, some_injective,
}
use kitchen_ops.Consistency.Lifecycle.Bodies.{
  After, assign_task-Evolved, start_body-Evolved, complete_body-Evolved,
}

module _ {F Q : Type 0} (w : Services F Q) (before : List (TaskModel F)) where
  requeue_task-Evolved :
      (task : TaskModel F) (s : Kitchen F Q)
      → Evolved before s.db.tasks
      → IsRequeueable s.db.tasks task
      → OnOk (Requeued (After w before) s task) (requeue_task w task s)
  unfolding requeue_task release_staff release_machine insert_domain_event
  requeue_task-Evolved task s e (found, active) =
      let e' =
        Evolved-update before s.db.tasks task.id task requeue_row found (λ r. refl)
          (requeues active refl) e in
      on_tx-OnOk w (Requeued (After w before) s task) _ _ s
        (elim (Option-cases task.assigned_staff_id) [
          | inl es ↦ elim (Option-cases task.assigned_machine_id) [
            | inl em ↦
                rw (es, em)
                  (on_tx-OnOk w (Requeued (After w before) s task) _ _ _
                    (on_tx-OnOk w (Requeued (After w before) s task) _ _ _ (e', refl)))
            | inr (m, em) ↦
                rw (es, em)
                  (on_tx-OnOk w (Requeued (After w before) s task) _ _ _ (
                    on_tx-OnOk w (Requeued (After w before) s task) _ _ _
                      (on_tx-OnOk w (Requeued (After w before) s task) _ _ _ (e', refl))))
          ]
          | inr (i, es) ↦ elim (Option-cases task.assigned_machine_id) [
            | inl em ↦
                rw (es, em)
                  (on_tx-OnOk w (Requeued (After w before) s task) _ _ _ (
                    on_tx-OnOk w (Requeued (After w before) s task) _ _ _
                      (on_tx-OnOk w (Requeued (After w before) s task) _ _ _ (e', refl))))
            | inr (m, em) ↦
                rw (es, em)
                  (on_tx-OnOk w (Requeued (After w before) s task) _ _ _ (
                    on_tx-OnOk w (Requeued (After w before) s task) _ _ _ (
                      on_tx-OnOk w (Requeued (After w before) s task) _ _ _
                        (on_tx-OnOk w (Requeued (After w before) s task) _ _ _ (e', refl)))))
          ]
        ])

-- A completed row is final.
Reach-completed :
    {F : Type 0} {t u : TaskModel F} → Reach t u → is_completed t.status ≡ true → u ≡ t
Reach-completed here done = refl
Reach-completed (next r (assigns _ _ _ free _ e)) done = ground (arith, Reach-completed r done)
Reach-completed (next r (starts _ ready e)) done = ground (arith, Reach-completed r done)
Reach-completed (next r (completes _ ready e)) done = ground (arith, Reach-completed r done)
Reach-completed (next r (requeues ready e)) done = ground (arith, Reach-completed r done)
Reach-completed (next r (unblocks free e)) done = ground (arith, Reach-completed r done)

abbrev IsGated : {F : Type 0} → TaskModel F → Type 0
IsGated t = is_unassigned t.status ≡ false → t.pending_deps ≡ 0

Step-IsGated : {F : Type 0} {t u : TaskModel F} → Step t u → IsGated t → IsGated u
Step-IsGated (assigns _ _ _ free ready e) g active = ground arith
Step-IsGated (starts _ ready e) g active = ground (arith, g (ground arith))
Step-IsGated (completes _ ready e) g active = ground (arith, g (ground arith))
Step-IsGated (requeues ready e) g active = ground arith
Step-IsGated (unblocks free e) g active = ground arith

Reach-IsGated : {F : Type 0} {t u : TaskModel F} → Reach t u → IsGated t → IsGated u
Reach-IsGated here g = g
Reach-IsGated (next r step) g = Step-IsGated step (Reach-IsGated r g)

module _ {F Q : Type 0} (w : Services F Q) (s : Kitchen F Q) (rs : List Request) where
  -- Where task ids are a primary key, no sequence of requests loses a task, and each task's row
  -- after it is reached from the row before by steps of the lifecycle: assigned if it was
  -- unassigned with no pending dependency, started if assigned, completed if started, requeued if
  -- assigned, unblocked if unassigned. Calls may fail in any way.
  pub serve_all-Reach :
      IsKeyed (λ t. t.id) s.db.tasks
      → (k : ℕ) (t : TaskModel F) → find? (has_key (λ r. r.id) k) s.db.tasks ≡ some t
      → (u : TaskModel F) × (find? (has_key (λ r. r.id) k) (serve_all w s rs).db.tasks ≡ some u)
        × Reach t u
  serve_all-Reach keyed =
      (serve_all_keeps w (After w s.db.tasks) (assign_task-Evolved w s.db.tasks)
        (requeue_body-Preserves w (After w s.db.tasks) (λ db e. e.0)
          (requeue_task-Evolved w s.db.tasks))
        (start_body-Evolved w s.db.tasks) (complete_body-Evolved w s.db.tasks) s rs
        (Evolved-refl s.db.tasks keyed)).1

  -- A completed task's row is never written again, by any sequence of requests: it is found after
  -- it as it was before. Task ids are a primary key.
  pub serve_all_keeps_completed :
      (k : ℕ) (t : TaskModel F)
      → IsKeyed (λ r. r.id) s.db.tasks
      → find? (has_key (λ r. r.id) k) s.db.tasks ≡ some t
      → is_completed t.status ≡ true
      → find? (has_key (λ r. r.id) k) (serve_all w s rs).db.tasks ≡ some t
  serve_all_keeps_completed k t keyed found done =
      let (u, now, reach) = serve_all-Reach keyed k t found in
      now ∙ ap some (Reach-completed reach done)

  -- A task that was unassigned before a sequence of requests and is not unassigned after it has no
  -- pending dependency: it was assigned only after the last one was counted off. Task ids are a
  -- primary key.
  pub serve_all_gates :
      (k : ℕ) (t u : TaskModel F)
      → IsKeyed (λ r. r.id) s.db.tasks
      → find? (has_key (λ r. r.id) k) s.db.tasks ≡ some t
      → is_unassigned t.status ≡ true
      → find? (has_key (λ r. r.id) k) (serve_all w s rs).db.tasks ≡ some u
      → is_unassigned u.status ≡ false
      → u.pending_deps ≡ 0
  serve_all_gates k t u keyed found free after active =
      let (v, now, reach) = serve_all-Reach keyed k t found in
      let same : u ≡ v = some_injective (sym after ∙ now) in
      Reach-IsGated (subst (Reach t) (sym same) reach) (λ busy. ground arith) active
