-- ===== src/Repository/Recipes.antt =====
-- internal/repository/recipe_repo.go
use kitchen_ops.Base.{
  ℕ, Bool, ◌&&◌, ◌||◌, List, [], ◌∷◌, ◌++◌, Bytes, bytes_eq, bytes_lt, any, where_, sort, map, ltb,
  ◌==◌, if◌then◌else◌, Option, none, some, lookup, insert,
}
use kitchen_ops.Models.{RecipeStepModel, RecipeStepDependencyModel, MachineModel}
use kitchen_ops.Runtime.{Services, Action, pure, call, arrange}

-- The first of each key that is not empty, and of each id that is not 0: the loops with `seen`.
unfoldable pub unique_keys : List Bytes → List Bytes → List Bytes
unique_keys seen [] = []
unique_keys seen (key ∷ keys) =
    let skipped = unique_keys seen keys in
    let taken = unique_keys (key ∷ seen) keys in
    if bytes_eq key [] || any (bytes_eq key) seen then skipped else key ∷ taken

unfoldable pub unique_ids : List ℕ → List ℕ → List ℕ
unique_ids seen [] = []
unique_ids seen (id ∷ ids) =
    let skipped = unique_ids seen ids in
    let taken = unique_ids (id ∷ seen) ids in
    if id == 0 || any (λ i. id == i) seen then skipped else id ∷ taken

-- A Go map with strings for keys; `get_list` is m[key], nil where the key is missing.
unfoldable pub get_list : {A : Type 0} → Bytes → List (Bytes × List A) → List A
get_list key [] = []
get_list key (p ∷ m) = let rest = get_list key m in if bytes_eq p.0 key then p.1 else rest

-- out[key] = f(out[key])
unfoldable pub update_list :
    {A : Type 0} → Bytes → (List A → List A) → List (Bytes × List A) → List (Bytes × List A)
update_list key f [] = (key, f []) ∷ []
update_list key f (p ∷ m) =
    let rest = update_list key f m in if bytes_eq p.0 key then (p.0, f p.1) ∷ m else p ∷ rest

abbrev pub item_before : Bytes → ℕ → Bytes → ℕ → Bool
item_before a m b n = if bytes_eq a b then ltb m n else bytes_lt a b

unfoldable pub group_steps :
    {F : Type 0}
    → List (RecipeStepModel F)
    → List (Bytes × List (RecipeStepModel F))
    → List (Bytes × List (RecipeStepModel F))
group_steps [] out = out
group_steps (row ∷ rows) out = group_steps rows (update_list row.item_key (λ l. l ++ row ∷ []) out)

abbrev pub append_dep : ℕ → ℕ → List (ℕ × List ℕ) → List (ℕ × List ℕ)
append_dep step dep deps = insert step (some_or_empty (lookup step deps) ++ dep ∷ []) deps
  where
    some_or_empty : Option (List ℕ) → List ℕ
    some_or_empty none = []
    some_or_empty (some l) = l

unfoldable pub group_dependencies :
    List RecipeStepDependencyModel
    → List (Bytes × List (ℕ × List ℕ))
    → List (Bytes × List (ℕ × List ℕ))
group_dependencies [] out = out
group_dependencies (row ∷ rows) out =
    group_dependencies rows
      (update_list row.item_key (append_dep row.step_order row.depends_on_step_order) out)

unfoldable pub capacities : List MachineModel → List (ℕ × ℕ) → List (ℕ × ℕ)
capacities [] out = out
capacities (row ∷ rows) out = capacities rows (insert row.id row.capacity out)

abbrev pub empty_lists : {A : Type 0} → List Bytes → List (Bytes × List A)
empty_lists keys = map (λ key. (key, [])) keys

module _ {F Q : Type 0} (w : Services F Q) where
  unfoldable pub get_active_recipe_steps_by_items :
      List Bytes → Action F Q (List (Bytes × List (RecipeStepModel F)))
  get_active_recipe_steps_by_items [] = pure []
  get_active_recipe_steps_by_items (item ∷ items) =
      let keys = sort bytes_lt (unique_keys [] (item ∷ items)) in
      call w λ s.
        let rows =
          sort (λ a b. item_before a.item_key a.step_order b.item_key b.step_order)
            (arrange w s.calls (λ r. r.id)
              (where_ (λ r. any (bytes_eq r.item_key) keys && r.is_active) s.db.recipe_steps)) in
        (group_steps rows (empty_lists keys), s)

  unfoldable pub get_recipe_step_dependencies_by_items :
      List Bytes → Action F Q (List (Bytes × List (ℕ × List ℕ)))
  get_recipe_step_dependencies_by_items [] = pure []
  get_recipe_step_dependencies_by_items (item ∷ items) =
      let keys = sort bytes_lt (unique_keys [] (item ∷ items)) in
      call w λ s.
        let rows =
          sort (λ a b. item_before a.item_key a.step_order b.item_key b.step_order)
            (sort (λ a b. ltb a.depends_on_step_order b.depends_on_step_order)
              (where_ (λ r. any (bytes_eq r.item_key) keys) s.db.recipe_step_dependencies)) in
        (group_dependencies rows (empty_lists keys), s)

  -- `if len(ids) == 0`, and the query.
  unfoldable pub read_capacities : List ℕ → Action F Q (List (ℕ × ℕ))
  read_capacities [] = pure []
  read_capacities (id ∷ ids) = call w λ s.
      let rows =
        arrange w s.calls (λ m. m.id)
          (where_ (λ m. any (λ i. m.id == i) (id ∷ ids)) s.db.machines) in
      (capacities rows [], s)

  unfoldable pub get_machine_capacities_by_ids : List ℕ → Action F Q (List (ℕ × ℕ))
  get_machine_capacities_by_ids ids = read_capacities (unique_ids [] ids)
