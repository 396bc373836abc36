-- ===== src/Consistency/Lifecycle.antt =====
-- The life of a task, as a step relation on its row, and tables whose rows have moved along it.
pub mod Bodies
pub mod Runs
use kitchen_ops.Base.{
  ℕ, ◌≡◌, ◌≢◌, refl, sym, ◌∙◌, Bool, true, false, Option, none, some, List, [], ◌∷◌, ◌==◌, ==_iff,
  IsKeyed, find?, has_key, update_where, update_where-IsKeyed, find-update_self, find-update_ne,
  find-update_where, Bool-cases, inl, inr, if◌then◌else◌, arith, subst,
}
use native.Mathlib.Decide.{ℕ_discrete}
use kitchen_ops.Models.{TaskStatus, TaskModel, is_unassigned, is_assigned, is_started}
use kitchen_ops.Repository.Allocation.{assign_row}
use kitchen_ops.Repository.Lifecycle.{start_row, complete_row, requeue_row, unblock_row}

-- One transition of a task's row. Only a task without pending dependencies is assigned.
pub data Step {F : Type 0} (t u : TaskModel F) : Type 0 where
  assigns :
      (staff_id machine_id now : ℕ)
      → is_unassigned t.status ≡ true
      → t.pending_deps ≡ 0
      → u ≡ assign_row staff_id machine_id now t
      → Step t u
  starts : (now : ℕ) → is_assigned t.status ≡ true → u ≡ start_row now t → Step t u
  completes : (now : ℕ) → is_started t.status ≡ true → u ≡ complete_row now t → Step t u
  requeues : is_assigned t.status ≡ true → u ≡ requeue_row t → Step t u
  unblocks : is_unassigned t.status ≡ true → u ≡ unblock_row t → Step t u

pub data Reach {F : Type 0} (t : TaskModel F) : TaskModel F → Type 0 where
  here : Reach t t
  next : {u v : TaskModel F} → Reach t u → Step u v → Reach t v

module _ {F : Type 0} where
  -- Every row of the table before is in the table after, some transitions later.
  abbrev pub Evolved : List (TaskModel F) → List (TaskModel F) → Type 0
  Evolved before after =
      IsKeyed (λ t. t.id) after
      × ((k : ℕ) (t : TaskModel F)
          → find? (has_key (λ r. r.id) k) before ≡ some t
          → (u : TaskModel F) × (find? (has_key (λ r. r.id) k) after ≡ some u) × Reach t u)

  pub Evolved-refl : (tasks : List (TaskModel F)) → IsKeyed (λ t. t.id) tasks → Evolved tasks tasks
  Evolved-refl tasks keyed = (keyed, λ k t found. (t, found, here))

  pub some_injective :
      {t u : TaskModel F} → ◌≡◌ {A = Option (TaskModel F)} (some t) (some u) → t ≡ u
  some_injective e = cc

  -- A write of one row.
  pub Evolved-update :
      (before after : List (TaskModel F)) (j : ℕ) (t : TaskModel F) (g : TaskModel F → TaskModel F)
      → find? (has_key (λ r. r.id) j) after ≡ some t
      → ((r : TaskModel F) → (g r).id ≡ r.id)
      → Step t (g t)
      → Evolved before after
      → Evolved before (update_where (has_key (λ r. r.id) j) g after)
  Evolved-update before after j t g found same step (keyed, rows) = (
    update_where-IsKeyed _ _ g after same keyed,
    λ k r e.
        let (u, now, reach) = rows k r e in
        elim (ℕ_discrete k j) [
          | yes at ↦ (
            g t,
            subst
                (λ n.
                  find? (has_key (λ x. x.id) n) (update_where (has_key (λ x. x.id) j) g after)
                  ≡ some (g t))
                (sym at) (find-update_self (λ x. x.id) j g after t same found),
            next
                (subst (Reach r)
                  (some_injective (
                    sym now
                    ∙ subst (λ n. find? (has_key (λ x. x.id) n) after ≡ some t) (sym at) found))
                  reach)
                step,
          )
          | no other ↦ (u, find-update_ne (λ x. x.id) k j g after same other ∙ now, reach)
        ],
  )

  -- A write of all the rows that pass a test.
  pub Evolved-update_where :
      (before after : List (TaskModel F)) (p : TaskModel F → Bool) (g : TaskModel F → TaskModel F)
      → ((r : TaskModel F) → (g r).id ≡ r.id)
      → ((r : TaskModel F) → p r ≡ true → Step r (g r))
      → Evolved before after
      → Evolved before (update_where p g after)
  Evolved-update_where before after p g same step (keyed, rows) = (
    update_where-IsKeyed _ p g after same keyed,
    λ k r e.
        let (u, now, reach) = rows k r e in
        (
          (if p u then g u else u),
          find-update_where (λ x. x.id) k p g after u same now,
          written (p u) u reach (step u),
        ),
  )
    where
      written :
          {t : TaskModel F} (b : Bool) (u : TaskModel F)
          → Reach t u
          → (b ≡ true → Step u (g u))
          → Reach t (if b then g u else u)
      written true u reach passed = next reach (passed refl)
      written false u reach passed = reach
