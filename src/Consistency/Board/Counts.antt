-- ===== src/Consistency/Board/Counts.antt =====
-- How many dependencies of a task are open, and what the writes of rows do to that number.
use native.Mathlib.Decide.{ℕ_discrete}
use kitchen_ops.Base.{
  ℕ, ◌+◌, ◌≡◌, ◌≢◌, refl, ap, Bool, true, false, not, ◌&&◌, Option, none, some, List, [], ◌∷◌, ◌==◌,
  ==-self, IsKeyed, find?, has_key, find-update_self, find-update_ne, update_where, All, any, count,
  if◌then◌else◌, Bool-cases, inl, inr, arith,
}
use kitchen_ops.Models.{ArePaired, TaskModel, TaskDependencyModel, is_completed, is_unassigned}
use kitchen_ops.Repository.Lifecycle.{is_dependent, unblock_row}
use kitchen_ops.Consistency.Board.{Board, set_row}

-- d is the row (task, on).
abbrev pub links : ℕ → ℕ → TaskDependencyModel → Bool
links on task d = (d.depends_on_task_id == on) && (d.task_id == task)

links_once :
    (on task : ℕ) (d : TaskDependencyModel) (deps : List TaskDependencyModel)
    → All
        (λ e. ((e.depends_on_task_id == d.depends_on_task_id) && (e.task_id == d.task_id)) ≡ false)
        deps
    → links on task d ≡ true
    → count (links on task) deps ≡ 0
links_once on task d [] h hit = refl
links_once on task d (e ∷ deps) h hit = ground (arith, h.0, links_once on task d deps h.1 hit)

module _ {F : Type 0} where
  abbrev pub is_unfinished : Option (TaskModel F) → Bool
  is_unfinished none = false
  is_unfinished (some t) = not (is_completed t.status)

  -- Task k is on the board and not completed.
  abbrev pub is_open : List (TaskModel F) → ℕ → Bool
  is_open tasks k = is_unfinished (find? (has_key (λ t. t.id) k) tasks)

  abbrev pub open_dependencies : List (TaskModel F) → List TaskDependencyModel → ℕ → ℕ
  open_dependencies tasks deps k =
      count (λ d. (d.task_id == k) && is_open tasks d.depends_on_task_id) deps

  abbrev pub IsCounted : Board F → ℕ → TaskModel F → Type 0
  IsCounted b k t =
      (t.pending_deps ≡ open_dependencies b.tasks b.dependencies k)
      × (is_unassigned t.status ≡ false → t.pending_deps ≡ 0)

  -- Every task counts its open dependencies, and has none once it is assigned.
  pub record AreCounted (b : Board F) : Type 0 where
    pub keyed : IsKeyed (λ t. t.id) b.tasks
    pub paired : ArePaired b.dependencies
    pub counted :
        (k : ℕ) (t : TaskModel F) → find? (has_key (λ r. r.id) k) b.tasks ≡ some t → IsCounted b k t

  pub links-any :
      (on : ℕ) (t : TaskModel F) (deps : List TaskDependencyModel)
      → ArePaired deps
      → is_unassigned t.status ≡ true
      → count (links on t.id) deps ≡ (if any (is_dependent on t) deps then 1 else 0)
  links-any on t [] h free = refl
  links-any on t (d ∷ deps) h free = elim (Bool-cases (links on t.id d)) [
    | inl hit ↦ ground (arith, links_once on t.id d deps h.0 hit)
    | inr miss ↦ ground (arith, links-any on t deps h.1 free)
  ]

  pub open_dependencies_same :
      (before after : List (TaskModel F)) (k : ℕ) (deps : List TaskDependencyModel)
      → ((j : ℕ) → is_open after j ≡ is_open before j)
      → open_dependencies after deps k ≡ open_dependencies before deps k
  open_dependencies_same before after k [] same = refl
  open_dependencies_same before after k (d ∷ deps) same =
      ground (arith, same d.depends_on_task_id, open_dependencies_same before after k deps same)

  -- One task fewer is open: each task loses the links to it.
  pub open_dependencies_less :
      (before after : List (TaskModel F)) (on k : ℕ) (deps : List TaskDependencyModel)
      → ((j : ℕ)
          → (if is_open before j then 1 else 0)
            ≡ (if is_open after j then 1 else 0) + (if j == on then 1 else 0))
      → open_dependencies before deps k ≡ open_dependencies after deps k + count (links on k) deps
  open_dependencies_less before after on k [] one = refl
  open_dependencies_less before after on k (d ∷ deps) one =
      ground (arith, one d.depends_on_task_id, open_dependencies_less before after on k deps one)

  pub is_open-unblock :
      (p : TaskModel F → Bool) (k : ℕ) (tasks : List (TaskModel F))
      → is_open (update_where p unblock_row tasks) k ≡ is_open tasks k
  is_open-unblock p k [] = refl
  is_open-unblock p k (t ∷ tasks) = ground (arith, is_open-unblock p k tasks)

  pub find-update_where-none :
      (k : ℕ) (p : TaskModel F → Bool) (g : TaskModel F → TaskModel F) (tasks : List (TaskModel F))
      → ((r : TaskModel F) → (g r).id ≡ r.id)
      → find? (has_key (λ r. r.id) k) tasks ≡ none
      → find? (has_key (λ r. r.id) k) (update_where p g tasks) ≡ none
  find-update_where-none k p g [] same e = refl
  find-update_where-none k p g (t ∷ tasks) same e =
      ground (arith, same t, find-update_where-none k p g tasks same)

  pub some_injective :
      {t u : TaskModel F} → ◌≡◌ {A = Option (TaskModel F)} (some t) (some u) → t ≡ u
  some_injective e = cc

  -- A write of one row, at its key and at every other.
  module _ (t : TaskModel F) (g : TaskModel F → TaskModel F) (tasks : List (TaskModel F))
      (found : find? (has_key (λ r. r.id) t.id) tasks ≡ some t)
      (same : (r : TaskModel F) → (g r).id ≡ r.id) where
    pub set_row-at : find? (has_key (λ r. r.id) t.id) (set_row t.id g tasks) ≡ some (g t)
    set_row-at = find-update_self (λ r. r.id) t.id g tasks t same found

    pub set_row-off :
        (k : ℕ)
        → k ≢ t.id
        → find? (has_key (λ r. r.id) k) (set_row t.id g tasks) ≡ find? (has_key (λ r. r.id) k) tasks
    set_row-off k other = find-update_ne (λ r. r.id) k t.id g tasks same other

    pub is_open-set_row :
        is_completed (g t).status ≡ is_completed t.status
        → (k : ℕ) → is_open (set_row t.id g tasks) k ≡ is_open tasks k
    is_open-set_row kept k = elim (ℕ_discrete k t.id) [
      | yes at ↦ rw (at, set_row-at, found) (ap not kept)
      | no other ↦ ap is_unfinished (set_row-off k other)
    ]

    pub is_open_complete :
        is_completed (g t).status ≡ true
        → is_completed t.status ≡ false
        → (k : ℕ)
        → (if is_open tasks k then 1 else 0)
          ≡ (if is_open (set_row t.id g tasks) k then 1 else 0) + (if k == t.id then 1 else 0)
    is_open_complete done undone k = elim (ℕ_discrete k t.id) [
      | yes at ↦ rw (at, set_row-at, found) (ground (arith, ==-self t.id))
      | no other ↦ ground (arith, set_row-off k other)
    ]

  -- A row after the second write, whether it was free to be counted off or not.
  pub counted_free :
      (r : TaskModel F) (hit : Bool) {open_now lost : ℕ}
      → is_unassigned r.status ≡ true
      → r.pending_deps ≡ open_now + lost
      → lost ≡ (if hit then 1 else 0)
      → ((if hit then unblock_row r else r).pending_deps ≡ open_now)
        × (is_unassigned (if hit then unblock_row r else r).status ≡ false
            → (if hit then unblock_row r else r).pending_deps ≡ 0)
  counted_free r true free e l = (omega (arith, e, l), λ busy. cc)
  counted_free r false free e l = (omega (arith, e, l), λ busy. cc)

  pub counted_taken :
      (r : TaskModel F) (hit : Bool) (open_now lost : ℕ)
      → r.pending_deps ≡ 0
      → r.pending_deps ≡ open_now + lost
      → ((if hit then unblock_row r else r).pending_deps ≡ open_now)
        × (is_unassigned (if hit then unblock_row r else r).status ≡ false
            → (if hit then unblock_row r else r).pending_deps ≡ 0)
  counted_taken r true n l z e = (omega (arith, e, z), λ busy. omega (arith, z))
  counted_taken r false n l z e = (omega (arith, e, z), λ busy. z)
