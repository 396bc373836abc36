-- ===== src/Consistency/Expired.antt =====
-- The loop of repository.RequeueExpiredAssignedTasks: what each round keeps, the pass keeps.
use kitchen_ops.Base.{
  ℕ, ◌+◌, ◌≡◌, ◌≢◌, refl, ◌∙◌, true, not, ◌&&◌, some, List, [], ◌∷◌, IsKeyed, All, arith, find?,
  has_key, find-update_ne, update_where, All-sort, All-where, All-take, All-where_self, All-zip,
  All-found, sort-IsKeyed, where-IsKeyed, take-IsKeyed, where_,
}
use kitchen_ops.Models.{TaskModel, Database, is_assigned}
use kitchen_ops.Runtime.{Services, Kitchen}
use kitchen_ops.Runtime.Outcomes.{OnOk, on_tx-OnOk, bind_OnOk, Preserves}
use kitchen_ops.Repository.Lifecycle.{
  requeue_row, is_expired, requeue_task, requeue_all, expired_tasks, requeue_body,
}

module _ {F : Type 0} where
  -- The task's row is the table's, and assigned.
  abbrev pub IsRequeueable : List (TaskModel F) → TaskModel F → Type 0
  IsRequeueable tasks t =
      (find? (has_key (λ r. r.id) t.id) tasks ≡ some t) × (is_assigned t.status ≡ true)

  -- What one round has done: the invariant still holds, and the task's row is requeued.
  abbrev pub Requeued :
      {Q : Type 0}
      → (Database F → Type 0)
      → Kitchen F Q
      → TaskModel F
      → TaskModel F
      → Kitchen F Q
      → Type 0
  Requeued I s task _ s' =
      I s'.db × (s'.db.tasks ≡ update_where (has_key (λ t. t.id) task.id) requeue_row s.db.tasks)

  still-IsRequeueable :
      (task t : TaskModel F) (before after : List (TaskModel F))
      → after ≡ update_where (has_key (λ r. r.id) task.id) requeue_row before
      → t.id ≢ task.id
      → IsRequeueable before t
      → IsRequeueable after t
  still-IsRequeueable task t before after e ne (found, active) = (
    rw e (find-update_ne (λ r. r.id) t.id task.id requeue_row before (λ r. refl) ne ∙ found),
    active,
  )

module _ {F Q : Type 0} (w : Services F Q) (I : Database F → Type 0)
    (keys : (db : Database F) → I db → IsKeyed (λ t. t.id) db.tasks)
    (round : (task : TaskModel F) (s : Kitchen F Q)
      → I s.db
      → IsRequeueable s.db.tasks task
      → OnOk (Requeued I s task) (requeue_task w task s)) where
  abbrev Kept : {A : Type 0} → A → Kitchen F Q → Type 0
  Kept _ s = I s.db

  requeue_all_keeps :
      (tasks : List (TaskModel F)) (s : Kitchen F Q)
      → I s.db
      → IsKeyed (λ t. t.id) tasks
      → All (IsRequeueable s.db.tasks) tasks
      → OnOk Kept (requeue_all w tasks s)
  unfolding requeue_all
  requeue_all_keeps [] s v keyed all = v
  requeue_all_keeps (task ∷ tasks) s v keyed all =
      bind_OnOk (Requeued I s task) Kept (requeue_task w task s) _ (round task s v all.0)
        λ _ s' (v', e).
          bind_OnOk (Kept {A = List (TaskModel F)}) Kept (requeue_all w tasks s') _
            (requeue_all_keeps tasks s' v' keyed.1 (
              All-zip (λ t. t.id ≢ task.id) (IsRequeueable s.db.tasks) (IsRequeueable s'.db.tasks)
                tasks (λ t. still-IsRequeueable task t s.db.tasks s'.db.tasks e) keyed.0 all.1))
            λ _ _ h. h

  -- The expired rows are distinct and assigned, so a pass keeps what each round keeps.
  pub requeue_body-Preserves :
      (cutoff limit : ℕ) → Preserves {F = F} {Q = Q} I (requeue_body w cutoff limit)
  unfolding requeue_body expired_tasks
  requeue_body-Preserves cutoff limit s v =
      let passes = λ (t : TaskModel F). is_expired cutoff t && not (w.locked (s.calls + 1) t.id) in
      let kept = where_ passes s.db.tasks in
      let keyed = keys s.db v in
      on_tx-OnOk w Kept _ (requeue_all w) s (
        requeue_all_keeps _ _ v
          (take-IsKeyed _ _ _
            (sort-IsKeyed _ _ _ (sort-IsKeyed _ _ kept (where-IsKeyed _ passes s.db.tasks keyed))))
          (All-take _ _ _ (
            All-sort _ _ _ (
              All-sort (IsRequeueable s.db.tasks) _ kept (
                All-zip (λ t. find? (has_key (λ r. r.id) t.id) s.db.tasks ≡ some t)
                  (λ t. passes t ≡ true) (IsRequeueable s.db.tasks) kept
                  (λ t f p. (f, ground arith))
                  (All-where _ passes s.db.tasks (All-found (λ r. r.id) s.db.tasks keyed))
                  (All-where_self passes s.db.tasks))))))
