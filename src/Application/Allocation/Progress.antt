-- ===== src/Application/Allocation/Progress.antt =====
-- AllocateOnce hands out a task that can be assigned.
use kitchen_ops.Base.{
  ℕ, ◌+◌, ◌-◌, ◌<◌, ◌≡◌, ◌≢◌, refl, sym, subst, ap, ◌∙◌, false, ◌&&◌, not, ◌==◌, ==_iff, Option,
  none, some, List, [], ◌∷◌, Bytes, where_, Bool-cases, inl, inr, arith, find-holds,
}
use kitchen_ops.Base.Decimal.{u64_mod, format_uint, parse_uint, parse_uint-format_uint}
use kitchen_ops.Models.{TaskModel}
use kitchen_ops.Runtime.{Services, Kitchen, Result, ok, err, transaction, call, on_tx}
use kitchen_ops.Runtime.Success.{OnDone, OnDone-map, bind_OnDone, transaction_done}
use kitchen_ops.Repository.Lifecycle.{
  is_expired, expired_tasks, requeue_all, requeue_body, requeue_expired_assigned_tasks,
}
use kitchen_ops.Application.Scores.{assign_ttl, pop_top_n}
use kitchen_ops.Application.Allocation.{
  assign_task, put_back, settle, try_assign, assign_each, enqueue_requeued, requeue_expired,
  allocate_once,
}
use kitchen_ops.Application.Allocation.Success.{CanBeAssigned, IsAssignedTo, assign_task_done}

module _ {F Q : Type 0} (w : Services F Q) where
  abbrev Is : ℕ → ℕ → Kitchen F Q → Type 0
  Is first a s = a ≡ first

  settle_keeps :
      (task_id first : ℕ) (r : Result ℕ) (s : Kitchen F Q)
      → first ≢ 0
      → OnDone (Is first) (settle w task_id first r s)
  unfolding settle put_back
  settle_keeps task_id first (ok a) s positive = elim (Bool-cases (first == 0)) [
    | inl zero_id ↦ absurd (positive ((==_iff first 0).0 zero_id))
    | inr other ↦ rw other refl
  ]
  settle_keeps task_id first (err e) s positive = refl

  try_assign_keeps :
      (now first : ℕ) (o : Option ℕ) (s : Kitchen F Q)
      → first ≢ 0
      → OnDone (Is first) (try_assign w now first o s)
  unfolding try_assign
  try_assign_keeps now first none s positive = refl
  try_assign_keeps now first (some task_id) s positive =
      settle_keeps task_id first (transaction w (assign_task w now task_id) s).0 _ positive

  -- Once a task is assigned, the rest of the loop keeps its id, whatever happens.
  assign_each_keeps :
      (now : ℕ) (ids : List Bytes) (first : ℕ) (s : Kitchen F Q)
      → first ≢ 0
      → OnDone (Is first) (assign_each w now first ids s)
  unfolding assign_each
  assign_each_keeps now [] first s positive = refl
  assign_each_keeps now (raw ∷ ids) first s positive =
      bind_OnDone (Is first) (Is first) (try_assign w now first (parse_uint raw) s)
        (λ f. assign_each w now f ids) (try_assign_keeps now first (parse_uint raw) s positive)
        λ f t e.
          subst (λ n. OnDone (Is first) (assign_each w now n ids t)) (sym e)
            (assign_each_keeps now ids first t positive)

module _ {F Q : Type 0} (w : Services F Q) (quiet : (n : ℕ) → w.fails n ≡ none) where
  -- The transaction assigns the task.
  transaction_assigns :
      (now task_id : ℕ) (task : TaskModel F) (s : Kitchen F Q)
      → CanBeAssigned w now task_id task s.db
      → OnDone (λ id t. id ≡ task_id) (transaction w (assign_task w now task_id) s)
  transaction_assigns now task_id task s ready =
      transaction_done w quiet (λ id db. id ≡ task_id) (assign_task w now task_id) s
        λ s' same open_tx.
          OnDone-map (IsAssignedTo now task) _ (assign_task w now task_id s')
            (assign_task_done w quiet now task_id task s' open_tx
              (subst (CanBeAssigned w now task_id task) (sym same) ready))
            λ id t h. (h.0, h.1.0 ∙ id_of)
    where
      id_of : task.id ≡ task_id
      id_of = let passed = find-holds _ s.db.tasks task (ready.waits 0) in ground arith

  try_assign_done :
      (now task_id : ℕ) (task : TaskModel F) (s : Kitchen F Q)
      → CanBeAssigned w now task_id task s.db
      → OnDone (λ id t. id ≡ task_id) (try_assign w now 0 (some task_id) s)
  unfolding try_assign settle
  try_assign_done now task_id task s ready =
      go (transaction w (assign_task w now task_id) s)
        (transaction_assigns now task_id task s ready)
    where
      go :
          (r : Result ℕ × Kitchen F Q)
          → OnDone (λ id t. id ≡ task_id) r
          → OnDone (λ id t. id ≡ task_id) (settle w task_id 0 r.0 r.1)
      go (ok a, t) e = e
      go (err e, t) h = absurd h

  -- No assignment has expired: the requeue does nothing.
  requeue_nothing :
      (now : ℕ) (s : Kitchen F Q)
      → ((n : ℕ)
          → where_ (λ t. is_expired (now - assign_ttl) t && not (w.locked n t.id)) s.db.tasks ≡ [])
      → requeue_expired w now s ≡ (ok tt, record s { calls = s.calls + 1 + 1 + 1; aborted = false })
  unfolding requeue_expired requeue_expired_assigned_tasks requeue_body expired_tasks requeue_all
      enqueue_requeued transaction call on_tx
  requeue_nothing now s fresh =
      rw (quiet s.calls, quiet (s.calls + 1), fresh (s.calls + 1 + 1), quiet (s.calls + 1 + 1)) refl

  allocate_once_from :
      (now task_id : ℕ) (rest : List Bytes) (task : TaskModel F) (s : Kitchen F Q)
      → task_id < u64_mod
      → task_id ≢ 0
      → CanBeAssigned w now task_id task s.db
      → OnDone (λ id t. id ≡ task_id) (assign_each w now 0 (format_uint task_id ∷ rest) s)
  unfolding assign_each
  allocate_once_from now task_id rest task s small positive ready =
      rw (parse_uint-format_uint task_id small) (
        bind_OnDone (λ id t. id ≡ task_id) (λ id t. id ≡ task_id)
          (try_assign w now 0 (some task_id) s) (λ first. assign_each w now first rest)
          (try_assign_done now task_id task s ready)
          λ first t e.
            subst (λ n. OnDone (λ id t. id ≡ task_id) (assign_each w now n rest t)) (sym e)
              (assign_each_keeps w now rest task_id t positive))

  result_of : (r : Result ℕ × Kitchen F Q) (id : ℕ) → OnDone (λ a t. a ≡ id) r → r.0 ≡ ok id
  result_of (ok a, t) id e = ap ok e
  result_of (err e, t) id h = absurd h

  -- If no call fails and no assignment has expired, AllocateOnce returns the first task that it pops
  -- if this task can be assigned: ids are a primary key, the task is unassigned and waits for
  -- nothing, its counter and its machine have room, a staff member of the counter is available, and
  -- no other transaction holds the task's or the machine's row. The id is not 0 and has 64 bits.
  pub allocate_once_assigns :
      (task_id : ℕ) (rest : List Bytes) (task : TaskModel F) (s : Kitchen F Q)
      → task_id < u64_mod
      → task_id ≢ 0
      → CanBeAssigned w (w.clock s.calls) task_id task s.db
      → ((n : ℕ)
          → where_
              (λ t. is_expired (w.clock s.calls - assign_ttl) t && not (w.locked n t.id))
              s.db.tasks
            ≡ [])
      → (w.pop_top_n 20 s.queue).0 ≡ format_uint task_id ∷ rest
      → (allocate_once w s).0 ≡ ok task_id
  unfolding allocate_once pop_top_n call
  allocate_once_assigns task_id rest task s small positive ready fresh popped =
      rw (requeue_nothing (w.clock s.calls) s fresh, quiet (s.calls + 1 + 1 + 1), popped)
        (result_of _ task_id
          (allocate_once_from (w.clock s.calls) task_id rest task _ small positive ready))
