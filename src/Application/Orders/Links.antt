-- ===== src/Application/Orders/Links.antt =====
-- The links of a drafted order lie within its tasks.
use kitchen_ops.Base.{
  ℕ, zero, suc, ◌+◌, ◌≤◌, ◌<◌, ◌≡◌, refl, subst, true, some, is_some, List, [], ◌∷◌, ◌++◌, Bytes, ℤ,
  length, length-append, get_elem?, All, All-append, All-map, All-insert, Option-cases, inl, inr,
  arith,
}
use kitchen_ops.Models.{TaskModel, RecipeStepModel, TaskDependencyModel}
use kitchen_ops.Runtime.{Result, ok, err}
use kitchen_ops.Application.Dependencies.{TaskDepPair}
use kitchen_ops.Application.Dependencies.Soundness.{IsInRange, infer_recipe_task_deps-IsInRange}
use kitchen_ops.Application.Orders.{
  Draft, then_ok, draft_row, add_steps, add_units, units, add_item, add_items, check_links, add_row,
  dependency_rows,
}

-- What holds of a result if it is no error.
abbrev pub IfOk : {A : Type 0} → (A → Type 0) → Result A → Type 0
IfOk P (ok a) = P a
IfOk P (err e) = Unit

pub then_ok-IfOk :
    {A B : Type 0} (P : A → Type 0) (Q : B → Type 0) (r : Result A) (f : A → Result B)
    → IfOk P r
    → ((a : A) → P a → IfOk Q (f a))
    → IfOk Q (then_ok r f)
then_ok-IfOk P Q (ok a) f h k = k a h
then_ok-IfOk P Q (err e) f h k = tt

check_links_passes :
    (n : ℕ) (links : List TaskDepPair) → All (IsInRange n) links → check_links n links ≡ ok tt
unfolding check_links
check_links_passes n [] h = refl
check_links_passes n (d ∷ links) ((t, dep, different), rest) =
    ground (arith, check_links_passes n links rest)

get_elem?-some :
    {A : Type 0} (xs : List A) (i : ℕ) → i < length xs → (a : A) × (get_elem? xs i ≡ some a)
get_elem?-some [] i l = absurd (omega (arith, l))
get_elem?-some (x ∷ xs) zero l = (x, refl)
get_elem?-some (x ∷ xs) (suc i) l = get_elem?-some xs i (omega (arith, l))

module _ {F : Type 0} where
  -- A drafted task has a machine, and waits for none yet.
  abbrev pub IsDrafted : TaskModel F → Type 0
  IsDrafted t = (is_some t.machine_id ≡ true) × (t.pending_deps ≡ 0)

  abbrev IsLinked : Draft F → Type 0
  IsLinked d = All (IsInRange (length d.task_rows)) d.dep_links × All IsDrafted d.task_rows

  abbrev Added : ℕ → List (TaskModel F) × List (ℕ × ℕ) → Type 0
  Added n r = All (λ p. p.1 < length r.0) r.1 × All IsDrafted r.0 × (n ≤ length r.0)

  add_steps-Added :
      (n : ℕ) (item : Bytes) (steps : List (RecipeStepModel F)) (rows : List (TaskModel F))
      (idx : List (ℕ × ℕ))
      → Added n (rows, idx)
      → IfOk (Added n) (add_steps item steps rows idx)
  unfolding add_steps
  add_steps-Added n item [] rows idx h = h
  add_steps-Added n item (step ∷ steps) rows idx (bounds, machines, grown) =
      elim (Option-cases step.machine_id) [
        | inl missing ↦ rw (missing, add_steps) tt
        | inr (m, found) ↦
            rw (found, add_steps)
              (add_steps-Added n item steps (rows ++ draft_row item step ∷ []) _ (
                All-insert (λ p. p.1 < length (rows ++ draft_row item step ∷ [])) step.step_order
                    (length rows) idx (omega (arith, longer))
                    (All-map _ _ idx (λ p l. omega (arith, longer, l)) bounds),
                All-append IsDrafted rows _ machines ((rw found refl, refl), tt),
                omega (arith, longer, grown),
              ))
      ]
    where
      longer : length (rows ++ draft_row item step ∷ []) ≡ length rows + 1
      longer = length-append rows (draft_row item step ∷ [])

  add_units-IsLinked :
      (item : Bytes) (steps : List (RecipeStepModel F)) (explicit : List (ℕ × List ℕ))
      (caps : List (ℕ × ℕ)) (n : ℕ) (d : Draft F)
      → IsLinked d
      → IfOk IsLinked (add_units item steps explicit caps n d)
  unfolding add_units
  add_units-IsLinked item steps explicit caps zero d h = h
  add_units-IsLinked item steps explicit caps (suc n) d h =
      then_ok-IfOk (Added (length d.task_rows)) IsLinked (add_steps item steps d.task_rows []) _
        (add_steps-Added (length d.task_rows) item steps d.task_rows [] (tt, h.1, omega arith))
        (λ r (bounds, machines, grown). add_units-IsLinked item steps explicit caps n _ (
          All-append (IsInRange (length r.0)) d.dep_links _
              (All-map _ _ d.dep_links (λ e l. widened e r.0 l grown) h.0)
              (infer_recipe_task_deps-IsInRange (length r.0) steps r.1 explicit caps bounds).0,
          machines,
        ))
    where
      widened :
          (e : TaskDepPair) (rows : List (TaskModel F))
          → IsInRange (length d.task_rows) e
          → length d.task_rows ≤ length rows
          → IsInRange (length rows) e
      widened e rows (t, dep, different) grown = (omega arith, omega arith, different)

  add_item-IsLinked :
      (item : Bytes) (steps : List (RecipeStepModel F)) (explicit : List (ℕ × List ℕ))
      (caps : List (ℕ × ℕ)) (qty : ℤ) (d : Draft F)
      → IsLinked d
      → IfOk IsLinked (add_item item steps explicit caps qty d)
  unfolding add_item
  add_item-IsLinked item [] explicit caps qty d h = tt
  add_item-IsLinked item (step ∷ steps) explicit caps qty d h =
      add_units-IsLinked item (step ∷ steps) explicit caps (units qty) d h

  add_items-IsLinked :
      (steps_by_item : List (Bytes × List (RecipeStepModel F)))
      (deps_by_item : List (Bytes × List (ℕ × List ℕ))) (caps : List (ℕ × ℕ))
      (items : List (Bytes × ℤ)) (d : Draft F)
      → IsLinked d
      → IfOk IsLinked (add_items steps_by_item deps_by_item caps items d)
  unfolding add_items
  add_items-IsLinked steps_by_item deps_by_item caps [] d h = h
  add_items-IsLinked steps_by_item deps_by_item caps (entry ∷ items) d h =
      then_ok-IfOk IsLinked IsLinked _ _ (add_item-IsLinked entry.0 _ _ caps entry.1 d h)
        (add_items-IsLinked steps_by_item deps_by_item caps items)

  add_row_total :
      (a b : TaskModel F) (out : List Bytes × List TaskDependencyModel)
      → (r : List Bytes × List TaskDependencyModel) × (add_row (some a) (some b) out ≡ ok r)
  unfolding add_row
  add_row_total a b (seen, deps) = (_, refl)

  dependency_rows_total :
      (tasks : List (TaskModel F)) (links : List TaskDepPair)
      (out : List Bytes × List TaskDependencyModel)
      → All (IsInRange (length tasks)) links
      → (r : List Bytes × List TaskDependencyModel) × (dependency_rows tasks links out ≡ ok r)
  unfolding dependency_rows
  dependency_rows_total tasks [] out h = (out, refl)
  dependency_rows_total tasks (link ∷ links) out ((t, dep, different), rest) =
      let (a, ea) = get_elem?-some tasks link.task_idx t in
      let (b, eb) = get_elem?-some tasks link.dep_idx dep in
      let (o, eo) = add_row_total a b out in
      let (r, er) = dependency_rows_total tasks links o rest in (r, rw (ea, eb, eo) er)

  -- Of an order whose items could be drafted, every task has a machine and no pending dependency, the check of the links
  -- passes, and as many stored tasks as were drafted have a dependency row for every link: neither
  -- the errors of the check nor an index out of range can occur.
  pub add_items_links :
      (steps_by_item : List (Bytes × List (RecipeStepModel F)))
      (deps_by_item : List (Bytes × List (ℕ × List ℕ))) (caps : List (ℕ × ℕ))
      (items : List (Bytes × ℤ)) (draft : Draft F) (tasks : List (TaskModel F))
      → add_items steps_by_item deps_by_item caps items (record { task_rows = []; dep_links = [] })
        ≡ ok draft
      → length tasks ≡ length draft.task_rows
      → All IsDrafted draft.task_rows
        × (check_links (length draft.task_rows) draft.dep_links ≡ ok tt)
        × ((r : List Bytes × List TaskDependencyModel) × (dependency_rows tasks draft.dep_links
                ([], [])
              ≡ ok r))
  add_items_links steps_by_item deps_by_item caps items draft tasks drafted stored =
      let linked : IfOk IsLinked (ok draft) = subst (IfOk IsLinked) drafted (
        add_items-IsLinked steps_by_item deps_by_item caps items
          (record { task_rows = []; dep_links = [] }) (tt, tt)) in
      (
        linked.1,
        check_links_passes (length draft.task_rows) draft.dep_links linked.0,
        dependency_rows_total tasks draft.dep_links ([], []) (rw stored linked.0),
      )
