-- ===== src/Application/Orders/Linked.antt =====
-- The dependency rows of a new order, and what storing them leaves.
use kitchen_ops.Base.{
  ℕ, zero, suc, ◌≡◌, refl, true, false, ◌&&◌, Option, none, some, List, [], ◌∷◌, ◌++◌, Bytes,
  bytes_eq, bytes_eq_iff, any, All, All-append, All-map, get_elem?, ◌==◌, if◌then◌else◌, Bool-cases,
  inl, inr, arith,
}
use kitchen_ops.Models.{ArePaired, TaskModel, TaskDependencyModel}
use kitchen_ops.Application.Dependencies.{TaskDepPair}
use kitchen_ops.Application.Orders.{dep_key, add_row, dependency_rows}
use kitchen_ops.Application.Orders.Links.{IfOk, then_ok-IfOk}
use kitchen_ops.Application.Orders.Recalculated.{IsRow, AreWithin}

abbrev pub AreSeen : List Bytes → List TaskDependencyModel → Type 0
AreSeen seen deps = All (λ d. any (bytes_eq (dep_key d)) seen ≡ true) deps

ArePaired-append :
    (deps : List TaskDependencyModel) (dep : TaskDependencyModel)
    → ArePaired deps
    → All
        (λ d.
          ((dep.depends_on_task_id == d.depends_on_task_id) && (dep.task_id == d.task_id)) ≡ false)
        deps
    → ArePaired (deps ++ dep ∷ [])
ArePaired-append [] dep paired other = (tt, tt)
ArePaired-append (d ∷ deps) dep paired other = (
  All-append _ deps (dep ∷ []) paired.0 (other.0, tt),
  ArePaired-append deps dep paired.1 other.1,
)

-- A dependency whose key is not among those seen is none of the seen ones.
unseen_differs :
    (dep d : TaskDependencyModel) (seen : List Bytes)
    → any (bytes_eq (dep_key dep)) seen ≡ false
    → any (bytes_eq (dep_key d)) seen ≡ true
    → ((dep.depends_on_task_id == d.depends_on_task_id) && (dep.task_id == d.task_id)) ≡ false
unseen_differs dep d seen fresh there =
    elim (Bool-cases
      ((dep.depends_on_task_id == d.depends_on_task_id) && (dep.task_id == d.task_id))) [
        | inl same ↦
            let on : dep.depends_on_task_id ≡ d.depends_on_task_id = ground arith in
            let task : dep.task_id ≡ d.task_id = ground arith in
            let key : dep_key d ≡ dep_key dep = cc (on, task) in cc (fresh, rw key at there)
        | inr other ↦ other
      ]

module _ {F : Type 0} where
  get_elem?-IsRow :
      (rows : List (TaskModel F)) (i : ℕ) (t : TaskModel F)
      → get_elem? rows i ≡ some t
      → IsRow rows t.id
  get_elem?-IsRow [] i t e = cc
  get_elem?-IsRow (row ∷ rows) zero t e = ground arith
  get_elem?-IsRow (row ∷ rows) (suc i) t e = ground (arith, get_elem?-IsRow rows i t e)

  abbrev pub AreSound : List (TaskModel F) → List Bytes × List TaskDependencyModel → Type 0
  AreSound rows out = AreWithin rows out.1 × ArePaired out.1 × AreSeen out.0 out.1

  add_row-AreSound :
      (rows : List (TaskModel F)) (task dep_task : Option (TaskModel F))
      (out : List Bytes × List TaskDependencyModel)
      → ((t : TaskModel F) → task ≡ some t → IsRow rows t.id)
      → ((t : TaskModel F) → dep_task ≡ some t → IsRow rows t.id)
      → AreSound rows out
      → IfOk (AreSound rows) (add_row task dep_task out)
  unfolding add_row
  add_row-AreSound rows none dep_task out there here h = tt
  add_row-AreSound rows (some task) none out there here h = tt
  add_row-AreSound rows (some task) (some dep_task) (seen, deps) there here
        (within, paired, known) =
      added (record { task_id = task.id; depends_on_task_id = dep_task.id })
        (there task refl, here dep_task refl)
    where
      added :
          (dep : TaskDependencyModel)
          → IsRow rows dep.task_id × IsRow rows dep.depends_on_task_id
          → AreSound rows (
              if any (bytes_eq (dep_key dep)) seen
              then (seen, deps)
              else (dep_key dep ∷ seen, deps ++ dep ∷ []))
      added dep both = elim (Bool-cases (any (bytes_eq (dep_key dep)) seen)) [
        | inl old ↦ rw old (within, paired, known)
        | inr fresh ↦ rw fresh (
          All-append _ deps (dep ∷ []) within (both, tt),
          ArePaired-append deps dep paired
              (All-map _ _ deps (λ d k. unseen_differs dep d seen fresh k) known),
          All-append (λ d. any (bytes_eq (dep_key d)) (dep_key dep ∷ seen) ≡ true) deps (dep ∷ [])
              (All-map _ _ deps (λ d k. ground arith) known)
              (rw ((bytes_eq_iff (dep_key dep) (dep_key dep)).1 refl) refl, tt),
        )
      ]

  pub dependency_rows-AreSound :
      (rows : List (TaskModel F)) (links : List TaskDepPair)
      (out : List Bytes × List TaskDependencyModel)
      → AreSound rows out
      → IfOk (AreSound rows) (dependency_rows rows links out)
  unfolding dependency_rows
  dependency_rows-AreSound rows [] out h = h
  dependency_rows-AreSound rows (link ∷ links) out h =
      then_ok-IfOk (AreSound rows) (AreSound rows) _ _
        (add_row-AreSound rows (get_elem? rows link.task_idx) (get_elem? rows link.dep_idx) out
          (λ t e. get_elem?-IsRow rows link.task_idx t e)
          (λ t e. get_elem?-IsRow rows link.dep_idx t e) h)
        (λ out' h'. dependency_rows-AreSound rows links out' h')
