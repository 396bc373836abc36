-- ===== src/Tests/Orders.antt =====
-- Runs of the dependency analyzer and of ConfirmOrder's draft, and their theorems at concrete inputs.
use kitchen_ops.Base.{ℕ, ◌≡◌, refl, some, true, List, [], ◌∷◌, Bytes, codes, pos, All, arith}
use kitchen_ops.Base.Decimal.{format_uint}
use kitchen_ops.Models.{ArePaired, TaskModel, RecipeStepModel, TaskDependencyModel}
use kitchen_ops.Runtime.{ok}
use kitchen_ops.Application.Dependencies.{
  TaskDepPair, infer_recipe_task_deps, infer_fallback, add_machine, add_previous, add_assembly,
  add_prior, add_edge, add_found, add_pair, step_by_order, is_assembly_like, add_explicit, add_deps,
}
use kitchen_ops.Application.Dependencies.Soundness.{
  IsInRange, IsDistinct, IsIncreasing, IsBackward, infer_recipe_task_deps-IsInRange,
  infer_recipe_task_deps-IsBackward,
}
use kitchen_ops.Repository.Recipes.{get_list}
use kitchen_ops.Application.Orders.{
  Draft, draft_row, add_items, add_item, add_units, add_steps, check_links, dependency_rows,
}
use kitchen_ops.Application.Orders.Links.{IsDrafted}
use kitchen_ops.Application.Orders.Rows.{AreRowsOf, add_items_rows}

abbrev baking : RecipeStepModel ℕ
baking = record {
  id = 1;
  item_key = codes "pie";
  step_order = 1;
  description = codes "bake";
  counter_id = 1;
  machine_id = some 4;
  estimate_secs = pos 5;
  base_priority = 2;
  is_active = true;
  created_at = 0;
}

-- A pie is baked, then glazed in the same oven, then plated.
abbrev pub pie : List (RecipeStepModel ℕ)
pie =
    baking
    ∷ record baking { id = 2; step_order = 2; description = codes "glaze" }
    ∷ record baking { id = 3; step_order = 3; description = codes " Plate it"; machine_id = some 5 }
    ∷ []

abbrev pie_tasks : List (ℕ × ℕ)
pie_tasks = (1, 0) ∷ (2, 1) ∷ (3, 2) ∷ []

abbrev pair : ℕ → ℕ → TaskDepPair
pair t d = record { task_idx = t; dep_idx = d }

pie_pairs :
    infer_recipe_task_deps pie pie_tasks [] ((4, 1) ∷ []) ≡ pair 2 0 ∷ pair 2 1 ∷ pair 1 0 ∷ []
unfolding infer_recipe_task_deps infer_fallback add_machine add_previous add_assembly add_prior
    add_edge add_found add_pair step_by_order is_assembly_like format_uint
pie_pairs = refl

explicit_pairs :
    infer_recipe_task_deps pie pie_tasks ((3, 1 ∷ 1 ∷ 3 ∷ 7 ∷ []) ∷ []) [] ≡ pair 2 0 ∷ []
unfolding infer_recipe_task_deps add_explicit add_deps add_edge add_found add_pair format_uint
explicit_pairs = refl

infer_recipe_task_deps-IsInRange_example :
    All (IsInRange 3) (infer_recipe_task_deps pie pie_tasks [] ((4, 1) ∷ []))
    × IsDistinct (infer_recipe_task_deps pie pie_tasks [] ((4, 1) ∷ []))
infer_recipe_task_deps-IsInRange_example =
    infer_recipe_task_deps-IsInRange 3 pie pie_tasks [] ((4, 1) ∷ []) (omega arith)

pie_tasks-IsIncreasing : IsIncreasing pie_tasks
pie_tasks-IsIncreasing a b i j ea eb l = ground arith

infer_recipe_task_deps-IsBackward_example :
    All IsBackward (infer_recipe_task_deps pie pie_tasks [] ((4, 1) ∷ []))
infer_recipe_task_deps-IsBackward_example =
    infer_recipe_task_deps-IsBackward pie pie_tasks ((4, 1) ∷ []) pie_tasks-IsIncreasing

abbrev pie_rows : List (TaskModel ℕ)
pie_rows =
    draft_row (codes "pie") baking
    ∷ draft_row (codes "pie")
        (record baking { id = 2; step_order = 2; description = codes "glaze" })
    ∷ draft_row (codes "pie") (record baking {
      id = 3;
      step_order = 3;
      description = codes " Plate it";
      machine_id = some 5;
    })
    ∷ []

abbrev pub pie_draft : Draft ℕ
pie_draft = record { task_rows = pie_rows; dep_links = pair 2 0 ∷ pair 2 1 ∷ pair 1 0 ∷ [] }

pie_drafted :
    add_items
      ((codes "pie", pie) ∷ [])
      []
      ((4, 1) ∷ [])
      ((codes "pie", pos 1) ∷ [])
      (record { task_rows = []; dep_links = [] })
    ≡ ok pie_draft
unfolding add_items add_item add_units add_steps get_list infer_recipe_task_deps infer_fallback
    add_machine add_previous add_assembly add_prior add_edge add_found add_pair step_by_order
    is_assembly_like format_uint
pie_drafted = refl

-- The tasks as they are stored, by their ids.
abbrev stored_pie : List (TaskModel ℕ)
stored_pie =
    record (draft_row (codes "pie") baking) { id = 6 }
    ∷ record (draft_row (codes "pie") baking) { id = 7 }
    ∷ record (draft_row (codes "pie") baking) { id = 8 }
    ∷ []

add_items_rows_example :
    All IsDrafted pie_rows
    × (check_links 3 pie_draft.dep_links ≡ ok tt)
    × (r : List Bytes × List TaskDependencyModel) × (dependency_rows stored_pie pie_draft.dep_links
          ([], [])
        ≡ ok r)
    × AreRowsOf stored_pie pie_draft.dep_links r.1
    × ArePaired r.1
add_items_rows_example =
    add_items_rows ((codes "pie", pie) ∷ []) [] ((4, 1) ∷ []) ((codes "pie", pos 1) ∷ []) pie_draft
      stored_pie pie_drafted refl (omega arith)
