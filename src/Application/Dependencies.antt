-- ===== src/Application/Dependencies.antt =====
-- internal/application/order_dependency_analyzer.go: which tasks of a recipe wait for which.
pub mod Soundness
use kitchen_ops.Base.{
  ℕ, ◌+◌, ◌≤◌, Bool, true, false, ◌||◌, Option, none, some, List, [], ◌∷◌, ◌++◌, Bytes, bytes_eq,
  codes, any, where_, sort, map, ltb, leb, ◌==◌, if◌then◌else◌, lookup, insert, not, ◌&&◌,
}
use kitchen_ops.Base.Decimal.{format_uint}
use kitchen_ops.Base.Text.{trim_space, to_lower, contains}
use kitchen_ops.Models.{RecipeStepModel}

pub record TaskDepPair : Type 0 where
  pub task_idx : ℕ
  pub dep_idx : ℕ

-- The variables `edges` and `seen`.
pub record Edges : Type 0 where
  pub edges : List TaskDepPair
  pub seen : List Bytes

abbrev pub no_edges : Edges
no_edges = record { edges = []; seen = [] }

-- strings.Join([]string{strconv.Itoa(taskIdx), strconv.Itoa(depIdx)}, ":")
abbrev pub edge_key : TaskDepPair → Bytes
edge_key e = format_uint e.task_idx ++ (codes ":" ++ format_uint e.dep_idx)

unfoldable pub add_pair : TaskDepPair → Edges → Edges
add_pair e s =
    if any (bytes_eq (edge_key e)) s.seen
    then s
    else record { edges = s.edges ++ e ∷ []; seen = edge_key e ∷ s.seen }

unfoldable pub add_found : Option ℕ → Option ℕ → Edges → Edges
add_found none dep s = s
add_found (some task_idx) none s = s
add_found (some task_idx) (some dep_idx) s =
    if task_idx == dep_idx
    then s
    else add_pair (record { task_idx = task_idx; dep_idx = dep_idx }) s

abbrev pub keywords : List Bytes
keywords =
    codes "assemble"
    ∷ codes "assembly"
    ∷ codes "final"
    ∷ codes "finish"
    ∷ codes "pack"
    ∷ codes "plating"
    ∷ codes "plate"
    ∷ codes "serve"
    ∷ []

unfoldable pub is_assembly_like : Bytes → Bool
is_assembly_like desc =
    let d = to_lower (trim_space desc) in if bytes_eq d [] then false else any (contains d) keywords

module _ {F : Type 0} where
  -- The description of stepByOrder[so]; that of a missing step is empty.
  abbrev pub described : Option (RecipeStepModel F) → Bytes
  described none = []
  described (some step) = step.description

  abbrev pub machine_of : Option (RecipeStepModel F) → Option ℕ
  machine_of none = none
  machine_of (some step) = step.machine_id

  unfoldable pub step_by_order :
      List (RecipeStepModel F) → List (ℕ × RecipeStepModel F) → List (ℕ × RecipeStepModel F)
  step_by_order [] m = m
  step_by_order (st ∷ steps) m = step_by_order steps (insert st.step_order st m)

-- The capacity of a machine that is not in the map is 0.
abbrev pub capacity_or_zero : Option ℕ → ℕ
capacity_or_zero none = 0
capacity_or_zero (some capacity) = capacity

module _ (step_to_task_idx : List (ℕ × ℕ)) where
  unfoldable pub add_edge : ℕ → ℕ → Edges → Edges
  add_edge task_step dep_step s =
      add_found (lookup task_step step_to_task_idx) (lookup dep_step step_to_task_idx) s

  unfoldable pub add_deps : ℕ → List ℕ → Edges → Edges
  add_deps task_step [] s = s
  add_deps task_step (dep_step ∷ deps) s = add_deps task_step deps (add_edge task_step dep_step s)

  -- The loop over explicitDeps, in whatever order the map gives its entries.
  unfoldable pub add_explicit : List (ℕ × List ℕ) → Edges → Edges
  add_explicit [] s = s
  add_explicit (entry ∷ entries) s = add_explicit entries (add_deps entry.0 entry.1 s)

  -- The inner loop: an assembly step waits for every earlier step that is not one.
  unfoldable pub add_prior : (ℕ → Bool) → ℕ → List ℕ → Edges → Edges
  add_prior is_assembly asm [] s = s
  add_prior is_assembly asm (so ∷ orders) s =
      add_prior is_assembly asm orders
        (if leb asm so || is_assembly so then s else add_edge asm so s)

  unfoldable pub add_assembly : (ℕ → Bool) → List ℕ → List ℕ → Edges → Edges
  add_assembly is_assembly orders [] s = s
  add_assembly is_assembly orders (asm ∷ asms) s =
      add_assembly is_assembly orders asms (add_prior is_assembly asm orders s)

  unfoldable pub add_previous : ℕ → Option ℕ → Edges → Edges
  add_previous so none s = s
  add_previous so (some prev) s = if prev == so then s else add_edge so prev s

  -- The loop over the steps, with previousByMachine.
  unfoldable pub add_machine : (ℕ → Option ℕ) → (ℕ → ℕ) → List (ℕ × ℕ) → List ℕ → Edges → Edges
  add_machine machine capacity previous [] s = s
  add_machine machine capacity previous (so ∷ orders) s = elim (machine so) [
    | none ↦ add_machine machine capacity previous orders s
    | some mid ↦
        add_machine machine capacity (insert mid so previous) orders
          (if leb (capacity mid) 1 then add_previous so (lookup mid previous) s else s)
  ]

  -- The fallback analyzer.
  unfoldable pub infer_fallback : {F : Type 0} → List (RecipeStepModel F) → List (ℕ × ℕ) → Edges
  infer_fallback steps machine_caps =
      let orders = sort ltb (map (λ st. st.step_order) steps) in
      let by_order = step_by_order steps [] in
      let is_assembly : ℕ → Bool = λ so. is_assembly_like (described (lookup so by_order)) in
      add_machine (λ so. machine_of (lookup so by_order))
        (λ mid. capacity_or_zero (lookup mid machine_caps)) [] orders
        (add_assembly is_assembly orders (where_ is_assembly orders) no_edges)

unfoldable pub infer_recipe_task_deps :
    {F : Type 0}
    → List (RecipeStepModel F)
    → List (ℕ × ℕ)
    → List (ℕ × List ℕ)
    → List (ℕ × ℕ)
    → List TaskDepPair
infer_recipe_task_deps steps step_to_task_idx [] machine_caps =
    (infer_fallback step_to_task_idx steps machine_caps).edges
infer_recipe_task_deps steps step_to_task_idx (entry ∷ entries) machine_caps =
    (add_explicit step_to_task_idx (entry ∷ entries) no_edges).edges
