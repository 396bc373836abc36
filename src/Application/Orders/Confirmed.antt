-- ===== src/Application/Orders/Confirmed.antt =====
-- What ConfirmOrder leaves, on every branch.
use kitchen_ops.Base.{
  ℕ, ◌+◌, ◌≡◌, ◌⊎◌, inl, inr, refl, sym, subst, Bool-cases, List, [], ◌∷◌, Bytes, ℤ, map, length,
  ltb, All, ◌<◌, ◌≤◌, arith,
}
use kitchen_ops.Base.Decimal.{u64_mod}
use kitchen_ops.Models.{TaskModel, RecipeStepModel}
use kitchen_ops.Runtime.{Services, Kitchen, Result, ok, err, Action, and_then}
use kitchen_ops.Runtime.Either.{OnEither, HasFailed, call_last_either}
use kitchen_ops.Repository.Recipes.{
  get_active_recipe_steps_by_items, get_recipe_step_dependencies_by_items, read_capacities,
  get_machine_capacities_by_ids,
}
use kitchen_ops.Application.Orders.{
  ConfirmOrderRequest, Draft, add_items, all_machine_ids, lift, order_name, place_order,
  confirm_order,
}
use kitchen_ops.Application.Orders.Links.{add_items_links}
use kitchen_ops.Application.Orders.Rows.{AreRowsOf, dependency_rows-AreRowsOf}
use kitchen_ops.Application.Orders.Created.{AreStored}
use kitchen_ops.Application.Orders.Placed.{WithinSequences, Placed, place_order-Placed}

abbrev item_keys : ConfirmOrderRequest → List Bytes
item_keys req = map (λ (entry : Bytes × ℤ). entry.0) req.items

abbrev pub no_draft : {F : Type 0} → Draft F
no_draft = record { task_rows = []; dep_links = [] }

AreStored-below :
    {F : Type 0} (order_id last bound : ℕ) (drafts rows : List (TaskModel F))
    → last + length drafts < bound
    → AreStored order_id last drafts rows
    → All (λ r. r.id < bound) rows
AreStored-below order_id last bound [] [] l h = tt
AreStored-below order_id last bound [] (row ∷ rows) l h = absurd h
AreStored-below order_id last bound (draft ∷ drafts) [] l h = tt
AreStored-below order_id last bound (draft ∷ drafts) (row ∷ rows) l ((at, is), rest) = (
  rw is (omega (arith, l)),
  AreStored-below order_id (last + 1) bound drafts rows (omega (arith, l)) rest,
)

module _ {F Q : Type 0} (w : Services F Q) where
  -- An error is that of the last call made, or of the last but one if that is followed by a
  -- rollback; or nothing but reads has been done.
  abbrev pub Settled :
      {A : Type 0} → (A → Kitchen F Q → Type 0) → Kitchen F Q → Result A × Kitchen F Q → Type 0
  Settled P s (ok a, t) = P a t
  Settled P s (err e, t) = HasFailed w 1 e t.calls ⊎ ((n : ℕ) × (t ≡ record s { calls = n }))

  OnEither-Settled :
      {A : Type 0} (R P : A → Kitchen F Q → Type 0) (s : Kitchen F Q) (r : Result A × Kitchen F Q)
      → ((a : A) (t : Kitchen F Q) → R a t → P a t)
      → OnEither (HasFailed w 1) R r
      → Settled P s r
  OnEither-Settled R P s (ok a, t) f h = f a t h
  OnEither-Settled R P s (err e, t) f h = inl h

  module _ {A B : Type 0} (P : B → Kitchen F Q → Type 0) (s : Kitchen F Q) where
    -- After a read the state differs in the number of calls only.
    read-Settled :
        (r : Result A × Kitchen F Q) (k : A → Action F Q B)
        → OnEither (HasFailed w 1) (λ a t. (n : ℕ) × (t ≡ record s { calls = n })) r
        → ((a : A) (n : ℕ) → r.0 ≡ ok a → Settled P s (k a (record s { calls = n })))
        → Settled P s (and_then r k)
    read-Settled (ok a, t) k (n, same) next =
        subst (λ t'. Settled P s (k a t')) (sym same) (next a n refl)
    read-Settled (err e, t) k h next = inl h

  module _ (name : Bytes) (draft : Draft F) (s : Kitchen F Q) where
    later_calls :
        (n : ℕ) (result : ℕ × List ℕ) (t : Kitchen F Q)
        → Placed w name draft (record s { calls = n }) result t
        → Placed w name draft s result t
    later_calls n result t h = record {
      rows = h.rows;
      deps = h.deps;
      created_at = h.created_at;
      events = h.events;
      order_id = h.order_id;
      stored = h.stored;
      linked = h.linked;
      within = h.within;
      paired = h.paired;
      database = h.database;
      ready = h.ready;
      announced = h.announced;
      queued = h.queued;
      order_drawn = h.order_drawn;
      tasks_drawn = h.tasks_drawn;
    }

  steps_read :
      (keys : List Bytes) (s : Kitchen F Q)
      → OnEither
          (HasFailed w 1)
          (λ a t. (n : ℕ) × (t ≡ record s { calls = n }))
          (get_active_recipe_steps_by_items w keys s)
  unfolding get_active_recipe_steps_by_items
  steps_read [] s = (s.calls, refl)
  steps_read (key ∷ keys) s = call_last_either w 1 _ _ s (s.calls + 1, refl)

  deps_read :
      (keys : List Bytes) (s : Kitchen F Q)
      → OnEither
          (HasFailed w 1)
          (λ a t. (n : ℕ) × (t ≡ record s { calls = n }))
          (get_recipe_step_dependencies_by_items w keys s)
  unfolding get_recipe_step_dependencies_by_items
  deps_read [] s = (s.calls, refl)
  deps_read (key ∷ keys) s = call_last_either w 1 _ _ s (s.calls + 1, refl)

  capacities_read :
      (ids : List ℕ) (s : Kitchen F Q)
      → OnEither
          (HasFailed w 1)
          (λ a t. (n : ℕ) × (t ≡ record s { calls = n }))
          (read_capacities w ids s)
  unfolding read_capacities
  capacities_read [] s = (s.calls, refl)
  capacities_read (id ∷ ids) s = call_last_either w 1 _ _ s (s.calls + 1, refl)

  -- What the reads of the request have returned: they change nothing but the number of calls.
  pub record HasRead (req : ConfirmOrderRequest) (s : Kitchen F Q)
      (steps : List (Bytes × List (RecipeStepModel F))) (deps : List (Bytes × List (ℕ × List ℕ)))
      (caps : List (ℕ × ℕ)) : Type 0 where
    pub calls_then : ℕ
    pub calls_later : ℕ
    pub steps_are : (get_active_recipe_steps_by_items w (item_keys req) s).0 ≡ ok steps
    pub deps_are :
        (get_recipe_step_dependencies_by_items w
          (item_keys req)
          (record s { calls = calls_then })).0
        ≡ ok deps
    pub caps_are :
        (get_machine_capacities_by_ids w
          (all_machine_ids steps)
          (record s { calls = calls_later })).0
        ≡ ok caps

  -- The items could be drafted from what was read, and the draft is placed. While task ids have 64
  -- bits, its dependencies are the rows of the drafted links.
  pub record Confirms (req : ConfirmOrderRequest) (s : Kitchen F Q) (result : ℕ × List ℕ)
      (t : Kitchen F Q) : Type 0 where
    pub steps : List (Bytes × List (RecipeStepModel F))
    pub deps : List (Bytes × List (ℕ × List ℕ))
    pub caps : List (ℕ × ℕ)
    pub draft : Draft F
    pub has_read : HasRead req s steps deps caps
    pub drafted : add_items steps deps caps req.items no_draft ≡ ok draft
    pub placed : Placed w (order_name (w.clock s.calls) req.external_order_id) draft s result t
    pub of_links : (u64_mod ≤ t.task_seq) ⊎ AreRowsOf placed.rows draft.dep_links placed.deps

  Placed-AreRowsOf :
      (name : Bytes) (draft : Draft F) (s : Kitchen F Q) (result : ℕ × List ℕ) (t : Kitchen F Q)
      (h : Placed w name draft s result t)
      → (u64_mod ≤ t.task_seq) ⊎ AreRowsOf h.rows draft.dep_links h.deps
  Placed-AreRowsOf name draft s result t h = elim (Bool-cases (ltb t.task_seq u64_mod)) [
    | inl small ↦ inr (
        dependency_rows-AreRowsOf h.rows draft.dep_links
          (AreStored-below result.0 s.task_seq u64_mod draft.task_rows h.rows
            (ground (arith, h.tasks_drawn)) h.stored)
          (h.linked.0, h.deps) h.linked.1)
    | inr large ↦ inl (ground arith)
  ]

  drafted-Settled :
      (req : ConfirmOrderRequest) (s : Kitchen F Q) (n : ℕ)
      (steps : List (Bytes × List (RecipeStepModel F))) (deps : List (Bytes × List (ℕ × List ℕ)))
      (caps : List (ℕ × ℕ)) (draft : Draft F)
      → WithinSequences s
      → HasRead req s steps deps caps
      → add_items steps deps caps req.items no_draft ≡ ok draft
      → Settled (Confirms req s) s (
          place_order w
            (order_name (w.clock s.calls) req.external_order_id)
            draft
            (record s { calls = n }))
  unfolding place_order
  drafted-Settled req s n steps deps caps draft fresh read drafted =
      let (rows_ok, checked, _) =
        add_items_links steps deps caps req.items draft draft.task_rows drafted refl in
      elim (Bool-cases (ltb 0 (length draft.task_rows))) [
        | inl some_task ↦
            OnEither-Settled (Placed w name draft (record s { calls = n })) (Confirms req s) s _
              (λ result t h.
                let p = later_calls name draft s n result t h in
                record {
                  steps = steps;
                  deps = deps;
                  caps = caps;
                  draft = draft;
                  has_read = read;
                  drafted = drafted;
                  placed = p;
                  of_links = Placed-AreRowsOf name draft s result t p;
                })
              (place_order-Placed w name draft (record s { calls = n })
                (record { tasks = fresh.tasks; dependencies = fresh.dependencies }) rows_ok
                (λ rows same. (add_items_links steps deps caps req.items draft rows drafted same).2)
                checked some_task)
        | inr no_task ↦ rw (checked, no_task) (inr (n, refl))
      ]
    where
      name : Bytes
      name = order_name (w.clock s.calls) req.external_order_id

  lifted-Settled :
      (req : ConfirmOrderRequest) (s : Kitchen F Q) (n : ℕ)
      (steps : List (Bytes × List (RecipeStepModel F))) (deps : List (Bytes × List (ℕ × List ℕ)))
      (caps : List (ℕ × ℕ)) (r : Result (Draft F))
      → WithinSequences s
      → HasRead req s steps deps caps
      → add_items steps deps caps req.items no_draft ≡ r
      → Settled (Confirms req s) s (
          and_then
            (lift r (record s { calls = n }))
            (place_order w (order_name (w.clock s.calls) req.external_order_id)))
  lifted-Settled req s n steps deps caps (ok draft) fresh read drafted =
      drafted-Settled req s n steps deps caps draft fresh read drafted
  lifted-Settled req s n steps deps caps (err e) fresh read drafted = inr (n, refl)

  -- Let no row have an id that the sequences have not given. ConfirmOrder then either returns an
  -- error, and it is that of the last call made, or of the one before the rollback that is the last,
  -- or nothing but reads has been done; or the items could be drafted from the recipe steps, step
  -- dependencies and machine capacities that were read, a new order stands in the database with a
  -- task for each drafted row, under consecutive new ids, and, unless the ids have passed 64 bits,
  -- with a dependency between the tasks of each drafted link and no other; the tasks count their
  -- dependencies, and exactly the tasks without any are returned, queued and announced, in order.
  pub confirm_order-Settled :
      (req : ConfirmOrderRequest) (s : Kitchen F Q)
      → WithinSequences s
      → Settled (Confirms req s) s (confirm_order w req s)
  unfolding confirm_order get_machine_capacities_by_ids
  confirm_order-Settled req s fresh = elim (Bool-cases (ltb 0 (length req.items))) [
    | inr no_item ↦ rw no_item (inr (s.calls, refl))
    | inl some_item ↦ rw some_item (
        read-Settled (Confirms req s) s _ _ (steps_read (item_keys req) s) (λ steps n read.
          read-Settled (Confirms req s) s _ _ (deps_read (item_keys req) (record s { calls = n }))
            (λ deps n' read'.
              read-Settled (Confirms req s) s _ _ (capacities_read _ (record s { calls = n' }))
                (λ caps n'' read''.
                  lifted-Settled req s n'' steps deps caps _ fresh
                    (record {
                      calls_then = n;
                      calls_later = n';
                      steps_are = read;
                      deps_are = read';
                      caps_are = read'';
                    })
                    refl))))
  ]
