-- ===== src/Application/Orders.antt =====
-- internal/application/order_service.go
pub mod Links
pub mod Created
pub mod Recalculated
pub mod Linked
pub mod Rows
pub mod Counted
pub mod Announced
pub mod Placed
pub mod Confirmed
use kitchen_ops.Base.{
  ℕ, zero, suc, ◌/◌, Bool, true, false, ◌&&◌, not, Option, none, some, List, [], ◌∷◌, ◌++◌, Bytes,
  bytes_eq, codes, any, map, ltb, ◌==◌, if◌then◌else◌, length, get_elem?, insert, ℤ, pos, negsuc,
}
use kitchen_ops.Base.Decimal.{format_uint}
use kitchen_ops.Models.{
  TaskStatus, TaskModel, RecipeStepModel, TaskDependencyModel, EventType, DomainEvent,
}
use kitchen_ops.Runtime.{
  Services, Action, Result, ok, err, Error, ◌>>=◌, ◌>>◌, get, pure, throw, guard, or_throw,
  items_required, no_tasks, recipe_not_found, step_missing_machine, invalid_indices,
  self_dependency, index_out_of_range, second,
}
use kitchen_ops.Repository.Recipes.{
  get_list, get_active_recipe_steps_by_items, get_recipe_step_dependencies_by_items,
  get_machine_capacities_by_ids,
}
use kitchen_ops.Repository.Orders.{
  create_order_with_tasks, insert_task_dependencies, recalculate_pending_deps_for_order,
  list_order_ready_tasks,
}
use kitchen_ops.Repository.Events.{insert_domain_event_no_tx}
use kitchen_ops.Application.Scores.{queue_score, enqueue}
use kitchen_ops.Application.Tasks.{task_event}
use kitchen_ops.Application.Dependencies.{TaskDepPair, infer_recipe_task_deps}

-- The items in the order that the range over the map gives.
pub record ConfirmOrderRequest : Type 0 where
  pub external_order_id : Bytes
  pub items : List (Bytes × ℤ)

abbrev pub then_ok : {A B : Type 0} → Result A → (A → Result B) → Result B
then_ok (ok a) f = f a
then_ok (err e) f = err e

-- The variables `taskRows` and `depLinks`.
pub record Draft (F : Type 0) : Type 0 where
  pub task_rows : List (TaskModel F)
  pub dep_links : List TaskDepPair

-- `if qty <= 0 { continue }`
abbrev pub units : ℤ → ℕ
units (pos n) = n
units (negsuc n) = 0

module _ {F : Type 0} where
  -- The literal models.TaskModel of a step; its other fields are set when it is stored.
  abbrev pub draft_row : Bytes → RecipeStepModel F → TaskModel F
  draft_row item step = record {
    id = 0;
    order_id = 0;
    description = item ++ (codes " :: " ++ step.description);
    counter_id = step.counter_id;
    machine_id = step.machine_id;
    estimate_secs = step.estimate_secs;
    base_priority = step.base_priority;
    pending_deps = 0;
    assigned_staff_id = none;
    assigned_machine_id = none;
    status = TaskStatus.unassigned;
    assignment_version = 0;
    claimed_by = none;
    claimed_until = none;
    assigned_at = none;
    started_at = none;
    completed_at = none;
    created_at = 0;
  }

  -- The loop over the steps, with stepToTaskIdx.
  unfoldable pub add_steps :
      Bytes
      → List (RecipeStepModel F)
      → List (TaskModel F)
      → List (ℕ × ℕ)
      → Result (List (TaskModel F) × List (ℕ × ℕ))
  add_steps item [] rows idx = ok (rows, idx)
  add_steps item (step ∷ steps) rows idx = elim step.machine_id [
    | none ↦ err (step_missing_machine item step.step_order)
    | some machine_id ↦
        add_steps item steps (rows ++ draft_row item step ∷ [])
          (insert step.step_order (length rows) idx)
  ]

  -- The loop over the quantity.
  unfoldable pub add_units :
      Bytes
      → List (RecipeStepModel F)
      → List (ℕ × List ℕ)
      → List (ℕ × ℕ)
      → ℕ
      → Draft F
      → Result (Draft F)
  add_units item steps explicit caps zero draft = ok draft
  add_units item steps explicit caps (suc n) draft =
      then_ok (add_steps item steps draft.task_rows []) λ added.
        add_units item steps explicit caps n (record {
          task_rows = added.0;
          dep_links = draft.dep_links ++ infer_recipe_task_deps steps added.1 explicit caps;
        })

  unfoldable pub add_item :
      Bytes
      → List (RecipeStepModel F)
      → List (ℕ × List ℕ)
      → List (ℕ × ℕ)
      → ℤ
      → Draft F
      → Result (Draft F)
  add_item item [] explicit caps qty draft = err (recipe_not_found item)
  add_item item (step ∷ steps) explicit caps qty draft =
      add_units item (step ∷ steps) explicit caps (units qty) draft

  -- The loop over the items.
  unfoldable pub add_items :
      List (Bytes × List (RecipeStepModel F))
      → List (Bytes × List (ℕ × List ℕ))
      → List (ℕ × ℕ)
      → List (Bytes × ℤ)
      → Draft F
      → Result (Draft F)
  add_items steps_by_item deps_by_item caps [] draft = ok draft
  add_items steps_by_item deps_by_item caps (entry ∷ entries) draft =
      then_ok
        (add_item entry.0 (get_list entry.0 steps_by_item) (get_list entry.0 deps_by_item) caps
          entry.1 draft)
        (add_items steps_by_item deps_by_item caps entries)

  abbrev pub machine_ids : List (RecipeStepModel F) → List ℕ
  machine_ids [] = []
  machine_ids (step ∷ steps) =
      let rest = machine_ids steps in elim step.machine_id [ none ↦ rest | some id ↦ id ∷ rest ]

  abbrev pub all_machine_ids : List (Bytes × List (RecipeStepModel F)) → List ℕ
  all_machine_ids [] = []
  all_machine_ids (p ∷ m) = machine_ids p.1 ++ all_machine_ids m

-- The loop that checks the indices; they are never negative.
unfoldable pub check_links : ℕ → List TaskDepPair → Result (Unit {0})
check_links n [] = ok tt
check_links n (d ∷ links) =
    let rest = check_links n links in
    if not (ltb d.task_idx n && ltb d.dep_idx n)
    then err (invalid_indices d.task_idx d.dep_idx)
    else (if d.task_idx == d.dep_idx then err (self_dependency d.task_idx) else rest)

abbrev pub dep_key : TaskDependencyModel → Bytes
dep_key d = format_uint d.task_id ++ (codes ":" ++ format_uint d.depends_on_task_id)

module _ {F : Type 0} where
  -- The end of the loop's body, once both tasks are found.
  unfoldable pub add_row :
      Option (TaskModel F)
      → Option (TaskModel F)
      → List Bytes × List TaskDependencyModel
      → Result (List Bytes × List TaskDependencyModel)
  add_row none dep_task out = err index_out_of_range
  add_row (some task) none out = err index_out_of_range
  add_row (some task) (some dep_task) (seen, deps) =
      let dep : TaskDependencyModel = record {
        task_id = task.id;
        depends_on_task_id = dep_task.id;
      } in
      ok (
        if any (bytes_eq (dep_key dep)) seen
        then (seen, deps)
        else (dep_key dep ∷ seen, deps ++ dep ∷ []))

  -- The loop over depLinks: the rows of task_dependencies, each once.
  unfoldable pub dependency_rows :
      List (TaskModel F)
      → List TaskDepPair
      → List Bytes × List TaskDependencyModel
      → Result (List Bytes × List TaskDependencyModel)
  dependency_rows tasks [] out = ok out
  dependency_rows tasks (link ∷ links) out =
      then_ok (add_row (get_elem? tasks link.task_idx) (get_elem? tasks link.dep_idx) out)
        (dependency_rows tasks links)

abbrev pub lift : {F Q A : Type 0} → Result A → Action F Q A
lift (ok a) = pure a
lift (err e) = throw e

-- fmt.Sprintf("order-%d", time.Now().UnixNano()) in place of an empty id.
abbrev pub order_name : ℕ → Bytes → Bytes
order_name now [] = codes "order-" ++ format_uint now
order_name now (c ∷ name) = c ∷ name

module _ {F Q : Type 0} (w : Services F Q) where
  unfoldable pub link_tasks : ℕ → List (TaskModel F) → List TaskDepPair → Action F Q (Unit {0})
  link_tasks order_id tasks [] = pure tt
  link_tasks order_id tasks (link ∷ links) = do
    rows ← lift (dependency_rows tasks (link ∷ links) ([], []))
    insert_task_dependencies w rows.1
    recalculate_pending_deps_for_order w order_id

  -- The loop over the ready tasks: their ids.
  unfoldable pub announce_tasks : List (TaskModel F) → Action F Q (List ℕ)
  announce_tasks [] = pure []
  announce_tasks (t ∷ tasks) = do
    s ← get
    enqueue w (format_uint t.id)
        (queue_score w.float (w.clock s.calls) t.base_priority t.created_at)
    s' ← get
    insert_domain_event_no_tx w (codes "task") (format_uint t.id)
        (task_event EventType.task_ready (w.clock s'.calls) t.id)
    ids ← announce_tasks tasks
    pure (t.id ∷ ids)

  unfoldable pub place_order : Bytes → Draft F → Action F Q (ℕ × List ℕ)
  place_order name draft = do
    lift (check_links (length draft.task_rows) draft.dep_links)
    guard (ltb 0 (length draft.task_rows)) no_tasks
    placed ← create_order_with_tasks w name draft.task_rows []
    link_tasks placed.0.id placed.1 draft.dep_links
    ready_tasks ← list_order_ready_tasks w placed.0.id
    ready_ids ← announce_tasks ready_tasks
    pure (placed.0.id, ready_ids)

  unfoldable pub confirm_order : ConfirmOrderRequest → Action F Q (ℕ × List ℕ)
  confirm_order req = do
    guard (ltb 0 (length req.items)) items_required
    s ← get
    let name = order_name (w.clock s.calls) req.external_order_id
    let item_keys = map (λ (entry : Bytes × ℤ). entry.0) req.items
    steps_by_item ← get_active_recipe_steps_by_items w item_keys
    deps_by_item ← get_recipe_step_dependencies_by_items w item_keys
    machine_caps ← get_machine_capacities_by_ids w (all_machine_ids steps_by_item)
    draft ← lift (
        add_items steps_by_item deps_by_item machine_caps req.items
          (record { task_rows = []; dep_links = [] }))
    place_order name draft
