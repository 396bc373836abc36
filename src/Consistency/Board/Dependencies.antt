-- ===== src/Consistency/Board/Dependencies.antt =====
-- pending_deps counts the dependencies that are not completed.
use native.Mathlib.Decide.{ℕ_discrete}
use kitchen_ops.Base.{
  ℕ, ◌+◌, ◌≡◌, refl, ◌∙◌, sym, ap, subst, Bool, false, some, List, [], ◌∷◌, find?, has_key,
  find-key, find-update_where, update_where-IsKeyed, All, any, count, if◌then◌else◌, Option-cases,
  Bool-cases, inl, inr, arith,
}
use kitchen_ops.Models.{TaskModel, OrderModel, TaskDependencyModel, is_completed, is_unassigned}
use kitchen_ops.Repository.Allocation.{assign_row}
use kitchen_ops.Repository.Lifecycle.{
  start_row, complete_row, requeue_row, is_dependent, unblock_row,
}
use kitchen_ops.Consistency.Board.{
  Board, Move, assigns, starts, requeues, completes, Moves, here, next, set_row, completed_tasks,
}
use kitchen_ops.Consistency.Board.Counts.{
  links, is_open, open_dependencies, IsCounted, links-any, open_dependencies_same,
  open_dependencies_less, is_open-unblock, find-update_where-none, some_injective, set_row-at,
  set_row-off, is_open-set_row, is_open_complete, counted_free, counted_taken, AreCounted,
}

module _ {F : Type 0} where
  module _ (b : Board F) (v : AreCounted b) (t : TaskModel F)
      (found : find? (has_key (λ r. r.id) t.id) b.tasks ≡ some t) where
    -- A write that completes nothing and keeps the count.
    AreCounted-set_row :
        (g : TaskModel F → TaskModel F) (orders : List OrderModel)
        → ((r : TaskModel F) → (g r).id ≡ r.id)
        → is_completed (g t).status ≡ is_completed t.status
        → (g t).pending_deps ≡ t.pending_deps
        → (is_unassigned (g t).status ≡ false → t.pending_deps ≡ 0)
        → AreCounted (record b { tasks = set_row t.id g b.tasks; orders = orders })
    AreCounted-set_row g orders same kept pending gated = record {
      keyed = update_where-IsKeyed (λ r. r.id) _ g b.tasks same v.keyed;
      paired = v.paired;
      counted = λ k u now. elim (ℕ_discrete k t.id) [
        | yes at ↦
            subst (IsCounted after k)
              (some_injective (
                sym (set_row-at t g b.tasks found same)
                ∙ subst (λ n. find? (has_key (λ r. r.id) n) after.tasks ≡ some u) at now))
              (
                pending
                    ∙ (v.counted k t (
                        subst (λ n. find? (has_key (λ r. r.id) n) b.tasks ≡ some t) (sym at)
                          found)).0
                    ∙ sym (counts k),
                λ busy. pending ∙ gated busy,
              )
        | no other ↦
            let (count_k, gate) =
              v.counted k u (sym (set_row-off t g b.tasks found same k other) ∙ now) in
            (count_k ∙ sym (counts k), gate)
      ];
    }
      where
        after : Board F
        after = record b { tasks = set_row t.id g b.tasks; orders = orders }

        counts :
            (k : ℕ)
            → open_dependencies after.tasks b.dependencies k
              ≡ open_dependencies b.tasks b.dependencies k
        counts k =
            open_dependencies_same b.tasks after.tasks k b.dependencies
              (is_open-set_row t g b.tasks found same kept)

    -- A completion counts the task off wherever it was counted.
    AreCounted-complete :
        (now : ℕ) (orders : List OrderModel)
        → is_completed t.status ≡ false
        → is_unassigned t.status ≡ false
        → AreCounted
            (record b { tasks = completed_tasks now t.id b.dependencies b.tasks; orders = orders })
    AreCounted-complete now orders undone busy = record {
      keyed =
          update_where-IsKeyed (λ r. r.id) counted_off unblock_row row_done (λ r. refl)
            (update_where-IsKeyed (λ r. r.id) _ (complete_row now) b.tasks (λ r. refl) v.keyed);
      paired = v.paired;
      counted = λ k u found_u. elim (Option-cases (find? (has_key (λ r. r.id) k) row_done)) [
        | inl missing ↦
            cc (find-update_where-none k counted_off unblock_row row_done (λ r. refl) missing)
        | inr (r, found_r) ↦
            subst (IsCounted after k)
              (some_injective (
                sym (
                  find-update_where (λ x. x.id) k counted_off unblock_row row_done r (λ x. refl)
                    found_r)
                ∙ found_u))
              (settled k r (find-key (λ x. x.id) k row_done r found_r) (standing k r found_r))
      ];
    }
      where
        row_done : List (TaskModel F)
        row_done = set_row t.id (complete_row now) b.tasks

        counted_off : TaskModel F → Bool
        counted_off r = any (is_dependent t.id r) b.dependencies

        after : Board F
        after = record b {
          tasks = completed_tasks now t.id b.dependencies b.tasks;
          orders = orders;
        }

        less :
            (k : ℕ)
            → open_dependencies b.tasks b.dependencies k
              ≡ open_dependencies after.tasks b.dependencies k + count (links t.id k) b.dependencies
        less k =
            open_dependencies_less b.tasks row_done t.id k b.dependencies
              (is_open_complete t (complete_row now) b.tasks found (λ r. refl) refl undone)
            ∙ ap (λ n. n + count (links t.id k) b.dependencies)
                (sym (
                  open_dependencies_same row_done after.tasks k b.dependencies
                    (λ j. is_open-unblock counted_off j row_done)))

        -- What the first write leaves of a row's count.
        standing :
            (k : ℕ) (r : TaskModel F)
            → find? (has_key (λ x. x.id) k) row_done ≡ some r
            → (r.pending_deps ≡ open_dependencies b.tasks b.dependencies k)
              × (is_unassigned r.status ≡ false → r.pending_deps ≡ 0)
        standing k r found_r = elim (ℕ_discrete k t.id) [
          | yes at ↦
              let done_row : complete_row now t ≡ r = some_injective (
                sym (set_row-at t (complete_row now) b.tasks found (λ x. refl))
                ∙ subst (λ n. find? (has_key (λ x. x.id) n) row_done ≡ some r) at found_r) in
              let at_t = v.counted t.id t found in
              (
                subst (λ x. x.pending_deps ≡ open_dependencies b.tasks b.dependencies k) done_row
                    (subst (λ n. t.pending_deps ≡ open_dependencies b.tasks b.dependencies n)
                      (sym at) at_t.0),
                λ _. subst (λ x. x.pending_deps ≡ 0) done_row (at_t.1 busy),
              )
          | no other ↦
              v.counted k r
                (sym (set_row-off t (complete_row now) b.tasks found (λ x. refl) k other) ∙ found_r)
        ]

        settled :
            (k : ℕ) (r : TaskModel F)
            → r.id ≡ k
            → (r.pending_deps ≡ open_dependencies b.tasks b.dependencies k)
              × (is_unassigned r.status ≡ false → r.pending_deps ≡ 0)
            → IsCounted after k (if counted_off r then unblock_row r else r)
        settled k r at (count_r, gate) = elim (Bool-cases (is_unassigned r.status)) [
          | inl free ↦ counted_free r (counted_off r) free (count_r ∙ less k) (
              subst (λ n. count (links t.id n) b.dependencies ≡ (if counted_off r then 1 else 0)) at
                (links-any t.id r b.dependencies v.paired free))
          | inr taken ↦ counted_taken r (counted_off r) _ _ (gate taken) (count_r ∙ less k)
        ]

  Move-AreCounted : {b c : Board F} → Move b c → AreCounted b → AreCounted c
  Move-AreCounted {b} (assigns t i m now found free ready e) v = rw e (
      AreCounted-set_row b v t found (assign_row i m now) _ (λ r. refl) (ground arith) refl
        (λ _. ready))
  Move-AreCounted {b} (starts t now found active e) v = rw e (
      AreCounted-set_row b v t found (start_row now) _ (λ r. refl) (ground arith) refl
        (λ _. (v.counted t.id t found).1 (ground arith)))
  Move-AreCounted {b} (requeues t found active e) v = rw e (
      AreCounted-set_row b v t found requeue_row _ (λ r. refl) (ground arith) refl
        (λ _. (v.counted t.id t found).1 (ground arith)))
  Move-AreCounted {b} (completes t now found active e) v =
      rw e (AreCounted-complete b v t found now _ (ground arith) (ground arith))

  pub Moves-AreCounted : {b c : Board F} → Moves b c → AreCounted b → AreCounted c
  Moves-AreCounted here v = v
  Moves-AreCounted (next moves move) v = Move-AreCounted move (Moves-AreCounted moves v)

  -- What the count says of a task that is assigned, started or completed.
  pub done_before :
      (b : Board F) (k : ℕ) (t : TaskModel F)
      → AreCounted b
      → find? (has_key (λ r. r.id) k) b.tasks ≡ some t
      → is_unassigned t.status ≡ false
      → All (λ d. d.task_id ≡ k → is_open b.tasks d.depends_on_task_id ≡ false) b.dependencies
  done_before b k t v found busy =
      none_open b.dependencies (sym (v.counted k t found).0 ∙ (v.counted k t found).1 busy)
    where
      none_open :
          (deps : List TaskDependencyModel)
          → open_dependencies b.tasks deps k ≡ 0
          → All (λ d. d.task_id ≡ k → is_open b.tasks d.depends_on_task_id ≡ false) deps
      none_open [] z = tt
      none_open (d ∷ deps) z = ((λ e. ground arith), none_open deps (ground arith))
