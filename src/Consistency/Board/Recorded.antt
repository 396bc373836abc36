-- ===== src/Consistency/Board/Recorded.antt =====
-- A task that is assigned or started has the records that its completion asks for.
use native.Mathlib.Decide.{ℕ_discrete}
use kitchen_ops.Base.{
  ℕ, ◌≡◌, refl, ◌∙◌, sym, subst, Bool, true, false, some, find?, has_key, find-update_where,
  update_where, any, if◌then◌else◌, Option-cases, inl, inr, arith,
}
use kitchen_ops.Models.{TaskModel, is_unassigned, is_started}
use kitchen_ops.Repository.Allocation.{assign_row}
use kitchen_ops.Repository.Lifecycle.{
  start_row, complete_row, requeue_row, is_dependent, unblock_row,
}
use kitchen_ops.Consistency.Board.{
  Board, Move, assigns, starts, requeues, completes, Moves, here, next, set_row,
}
use kitchen_ops.Consistency.Board.Counts.{
  set_row-at, set_row-off, some_injective, find-update_where-none,
}

module _ {F : Type 0} where
  -- What a task has on record once it is assigned, and once it is started.
  abbrev pub IsRecorded : TaskModel F → Type 0
  IsRecorded t =
      (is_unassigned t.status ≡ false
        → ((i : ℕ) × (t.assigned_staff_id ≡ some i)) × ((m : ℕ) × (t.assigned_machine_id ≡ some m)))
      × (is_started t.status ≡ true → (at : ℕ) × (t.started_at ≡ some at))

  abbrev pub AreRecorded : Board F → Type 0
  AreRecorded b =
      (k : ℕ) (t : TaskModel F) → find? (has_key (λ r. r.id) k) b.tasks ≡ some t → IsRecorded t

  set_row-AreRecorded :
      (b : Board F) (t : TaskModel F) (g : TaskModel F → TaskModel F)
      → find? (has_key (λ r. r.id) t.id) b.tasks ≡ some t
      → ((r : TaskModel F) → (g r).id ≡ r.id)
      → AreRecorded b
      → IsRecorded (g t)
      → AreRecorded (record b { tasks = set_row t.id g b.tasks })
  set_row-AreRecorded b t g found same v written k u now = elim (ℕ_discrete k t.id) [
    | yes at ↦
        subst IsRecorded
          (some_injective (
            sym (set_row-at t g b.tasks found same)
            ∙ subst (λ n. find? (has_key (λ r. r.id) n) (set_row t.id g b.tasks) ≡ some u) at now))
          written
    | no other ↦ v k u (sym (set_row-off t g b.tasks found same k other) ∙ now)
  ]

  unblock-AreRecorded :
      (b : Board F) (p : TaskModel F → Bool)
      → AreRecorded b
      → AreRecorded (record b { tasks = update_where p unblock_row b.tasks })
  unblock-AreRecorded b p v k u now = elim (Option-cases (find? (has_key (λ r. r.id) k) b.tasks)) [
    | inl missing ↦ cc (find-update_where-none k p unblock_row b.tasks (λ r. refl) missing, now)
    | inr (r, found) ↦
        subst IsRecorded
          (some_injective
            (sym (find-update_where (λ x. x.id) k p unblock_row b.tasks r (λ x. refl) found) ∙ now))
          (either (p r) r (v k r found))
  ]
    where
      either :
          (q : Bool) (r : TaskModel F) → IsRecorded r → IsRecorded (if q then unblock_row r else r)
      either true r h = h
      either false r h = h

  Move-AreRecorded : {b c : Board F} → Move b c → AreRecorded b → AreRecorded c
  Move-AreRecorded {b} (assigns t i m now found free ready e) v = subst AreRecorded (sym e) λ k u.
      set_row-AreRecorded b t (assign_row i m now) found (λ r. refl) v
        ((λ busy. ((i, refl), (m, refl))), (λ started. cc)) k u
  Move-AreRecorded {b} (starts t now found active e) v = subst AreRecorded (sym e) λ k u.
      set_row-AreRecorded b t (start_row now) found (λ r. refl) v
        ((λ busy. (v t.id t found).0 (ground arith)), (λ started. (now, refl))) k u
  Move-AreRecorded {b} (requeues t found active e) v = subst AreRecorded (sym e) λ k u.
      set_row-AreRecorded b t requeue_row found (λ r. refl) v ((λ busy. cc), (λ started. cc)) k u
  Move-AreRecorded {b} (completes t now found active e) v = subst AreRecorded (sym e) λ k u.
      unblock-AreRecorded (record b { tasks = set_row t.id (complete_row now) b.tasks })
        (λ r. any (is_dependent t.id r) b.dependencies)
        (set_row-AreRecorded b t (complete_row now) found (λ r. refl) v
          ((λ busy. (v t.id t found).0 (ground arith)), (λ started. cc)))
        k u

  pub Moves-AreRecorded : {b c : Board F} → Moves b c → AreRecorded b → AreRecorded c
  Moves-AreRecorded here v = v
  Moves-AreRecorded (next moves move) v = Move-AreRecorded move (Moves-AreRecorded moves v)
