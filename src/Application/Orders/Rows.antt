-- ===== src/Application/Orders/Rows.antt =====
-- The dependency rows of drafted links: which they are.
use mathlib.Core.List.{Mem, mem-cons_self, mem-cons_of_mem, mem-append_left, mem-append_right}
use kitchen_ops.Application.Orders.Linked.{AreSound, dependency_rows-AreSound}
use kitchen_ops.Base.{
  length, ℤ, ℕ, zero, suc, ◌≡◌, ◌≢◌, ◌<◌, refl, sym, ap, subst, true, Option, none, some, List, [],
  ◌∷◌, ◌++◌, Bytes, bytes_eq, bytes_eq_iff, any, All, All-append, All-map, get_elem?, if◌then◌else◌,
  Bool-cases, inl, inr, arith,
}
use kitchen_ops.Base.Decimal.{
  u64_mod, format_uint, format_uint-All, parse_uint, parse_uint-format_uint,
}
use kitchen_ops.Models.{ArePaired, RecipeStepModel, TaskModel, TaskDependencyModel}
use kitchen_ops.Runtime.{Result, ok, err}
use kitchen_ops.Application.Dependencies.{TaskDepPair}
use kitchen_ops.Application.Orders.{
  Draft, add_items, check_links, dep_key, add_row, dependency_rows,
}
use kitchen_ops.Application.Orders.Links.{IfOk, then_ok-IfOk, IsDrafted, add_items_links}

-- Texts without a colon, each with a colon and a text after it.
colon_splits :
    (a b x y : Bytes)
    → All (λ c. c ≢ 58) a
    → All (λ c. c ≢ 58) b
    → a ++ 58 ∷ x ≡ b ++ 58 ∷ y
    → (a ≡ b) × (x ≡ y)
colon_splits [] [] x y h k e = (refl, cc)
colon_splits [] (d ∷ b) x y h k e = absurd (k.0 (cc e))
colon_splits (c ∷ a) [] x y h k e = absurd (h.0 (cc e))
colon_splits (c ∷ a) (d ∷ b) x y h k e =
    let (same, rest) = colon_splits a b x y h.1 k.1 cc in (cc, rest)

format_uint_injective :
    (a b : ℕ) → a < u64_mod → b < u64_mod → format_uint a ≡ format_uint b → a ≡ b
format_uint_injective a b small small' e =
    cc (parse_uint-format_uint a small, parse_uint-format_uint b small', ap parse_uint e)

no_colon : (n : ℕ) → All (λ c. c ≢ 58) (format_uint n)
no_colon n = format_uint-All (λ c. c ≢ 58) n (λ d l e. omega arith)

-- Both ids have 64 bits.
abbrev AreSmall : TaskDependencyModel → Type 0
AreSmall d = (d.task_id < u64_mod) × (d.depends_on_task_id < u64_mod)

dep_key_injective :
    (d e : TaskDependencyModel) → AreSmall d → AreSmall e → dep_key d ≡ dep_key e → d ≡ e
dep_key_injective d e small small' same =
    let (tasks, ons) =
      colon_splits (format_uint d.task_id) (format_uint e.task_id) _ _ (no_colon d.task_id)
        (no_colon e.task_id) same in
    let task : d.task_id ≡ e.task_id =
      format_uint_injective d.task_id e.task_id small.0 small'.0 tasks in
    let on : d.depends_on_task_id ≡ e.depends_on_task_id =
      format_uint_injective d.depends_on_task_id e.depends_on_task_id small.1 small'.1 ons in
    λ i. record { task_id = task i; depends_on_task_id = on i }

any_finds :
    (P : Bytes → Type 0) (key : Bytes) (seen : List Bytes)
    → All P seen
    → any (bytes_eq key) seen ≡ true
    → P key
any_finds P key [] h e = cc
any_finds P key (k ∷ seen) h e = elim (Bool-cases (bytes_eq key k)) [
  | inl hit ↦ subst P (sym ((bytes_eq_iff key k).0 hit)) h.0
  | inr miss ↦ any_finds P key seen h.1 (ground arith)
]

get_elem?-All :
    {A : Type 0} (P : A → Type 0) (xs : List A) (i : ℕ) (a : A)
    → All P xs
    → get_elem? xs i ≡ some a
    → P a
get_elem?-All P [] i a h e = cc
get_elem?-All P (x ∷ xs) zero a h e = subst P (cc e) h.0
get_elem?-All P (x ∷ xs) (suc i) a h e = get_elem?-All P xs i a h.1 e

IfOk-map :
    {A : Type 0} (P Q : A → Type 0) (r : Result A) → ((a : A) → P a → Q a) → IfOk P r → IfOk Q r
IfOk-map P Q (ok a) f h = f a h
IfOk-map P Q (err e) f h = tt

listed_all : {A : Type 0} (xs : List A) → All (λ x. Mem x xs) xs
listed_all [] = tt
listed_all (x ∷ xs) = (mem-cons_self, All-map _ _ xs (λ y m. mem-cons_of_mem x m) (listed_all xs))

module _ {F : Type 0} (tasks : List (TaskModel F)) where
  -- The row names the tasks at the indices of the link.
  abbrev pub IsRowOf : TaskDepPair → TaskDependencyModel → Type 0
  IsRowOf link d =
      (a b : TaskModel F) × (get_elem? tasks link.task_idx ≡ some a)
      × (get_elem? tasks link.dep_idx ≡ some b)
      × (d.task_id ≡ a.id)
      × (d.depends_on_task_id ≡ b.id)

  -- Every row is that of a link, and every link has its row.
  abbrev pub AreRowsOf : List TaskDepPair → List TaskDependencyModel → Type 0
  AreRowsOf links deps =
      All (λ d. (link : TaskDepPair) × Mem link links × IsRowOf link d) deps
      × All (λ link. (d : TaskDependencyModel) × Mem d deps × IsRowOf link d) links

  module _ (links : List TaskDepPair) (small : All (λ t. t.id < u64_mod) tasks) where
    -- Every row is that of a link, and every key is that of a row.
    abbrev Keyed : List Bytes × List TaskDependencyModel → Type 0
    Keyed out =
        All (λ d. (link : TaskDepPair) × Mem link links × IsRowOf link d) out.1
        × All (λ key. (d : TaskDependencyModel) × Mem d out.1 × AreSmall d × (dep_key d ≡ key))
            out.0

    abbrev Grown :
        List TaskDepPair
        → List Bytes × List TaskDependencyModel
        → List Bytes × List TaskDependencyModel
        → Type 0
    Grown done out out' =
        Keyed out'
        × ((d : TaskDependencyModel) → Mem d out.1 → Mem d out'.1)
        × All (λ link. (d : TaskDependencyModel) × Mem d out'.1 × IsRowOf link d) done

    add_row-Grown :
        (link : TaskDepPair) (a b : Option (TaskModel F))
        (out : List Bytes × List TaskDependencyModel)
        → Mem link links
        → get_elem? tasks link.task_idx ≡ a
        → get_elem? tasks link.dep_idx ≡ b
        → Keyed out
        → IfOk (Grown (link ∷ []) out) (add_row a b out)
    unfolding add_row
    add_row-Grown link none b out listed at on h = tt
    add_row-Grown link (some a) none out listed at on h = tt
    add_row-Grown link (some a) (some b) (seen, deps) listed at on (rows, keys) =
        added (record { task_id = a.id; depends_on_task_id = b.id }) (a, b, at, on, refl, refl)
          (
            get_elem?-All (λ t. t.id < u64_mod) tasks link.task_idx a small at,
            get_elem?-All (λ t. t.id < u64_mod) tasks link.dep_idx b small on,
          )
      where
        added :
            (dep : TaskDependencyModel)
            → IsRowOf link dep
            → AreSmall dep
            → Grown
                (link ∷ [])
                (seen, deps)
                (if any (bytes_eq (dep_key dep)) seen
                  then (seen, deps)
                  else (dep_key dep ∷ seen, deps ++ dep ∷ []))
        added dep is_row fits = elim (Bool-cases (any (bytes_eq (dep_key dep)) seen)) [
          | inl old ↦
              let (d, there, small', same) =
                any_finds
                  (λ key. (d : TaskDependencyModel) × Mem d deps × AreSmall d × (dep_key d ≡ key))
                  (dep_key dep) seen keys old in
              rw old (
                (rows, keys),
                λ d h. h,
                (
                  (
                    d,
                    there,
                    subst (IsRowOf link) (sym (dep_key_injective d dep small' fits same)) is_row,
                  ),
                  tt,
                ),
              )
          | inr fresh ↦ rw fresh (
            (
              All-append _ deps (dep ∷ []) rows ((link, listed, is_row), tt),
              (
                (dep, mem-append_right deps mem-cons_self, fits, refl),
                All-map _ _ seen
                    (λ key known. (known.0, mem-append_left (dep ∷ []) known.1, known.2, known.3))
                    keys,
              ),
            ),
            λ d h. mem-append_left (dep ∷ []) h,
            ((dep, mem-append_right deps mem-cons_self, is_row), tt),
          )
        ]

    dependency_rows-Grown :
        (rest : List TaskDepPair) (out : List Bytes × List TaskDependencyModel)
        → All (λ link. Mem link links) rest
        → Keyed out
        → IfOk (Grown rest out) (dependency_rows tasks rest out)
    unfolding dependency_rows
    dependency_rows-Grown [] out listed h = (h, λ d m. m, tt)
    dependency_rows-Grown (link ∷ rest) out listed h =
        then_ok-IfOk (Grown (link ∷ []) out) (Grown (link ∷ rest) out) _ _
          (add_row-Grown link _ _ out listed.0 refl refl h)
          λ mid (keyed, kept, ((d, there, is_row), _)).
            IfOk-map (Grown rest mid) (Grown (link ∷ rest) out) (dependency_rows tasks rest mid)
              (λ r (keyed', kept', all).
                (keyed', λ e m. kept' e (kept e m), ((d, kept' d there, is_row), all)))
              (dependency_rows-Grown rest mid listed.1 keyed)

    pub dependency_rows-AreRowsOf :
        (r : List Bytes × List TaskDependencyModel)
        → dependency_rows tasks links ([], []) ≡ ok r
        → AreRowsOf links r.1
    dependency_rows-AreRowsOf r built =
        let grown : IfOk (Grown links ([], [])) (ok r) =
          subst (IfOk (Grown links ([], []))) built
            (dependency_rows-Grown links ([], []) (listed_all links) (tt, tt)) in
        (grown.0.0, grown.2)

module _ {F : Type 0} where
  -- Of an order whose items could be drafted, every task has a machine and no pending dependency, and
  -- the check of the links passes. For as many stored tasks as were drafted, whose ids have 64 bits,
  -- the dependency rows are built: a row between the tasks of each link, none but those, and none
  -- twice. Neither the errors of the check nor an index out of range can occur.
  pub add_items_rows :
      (steps_by_item : List (Bytes × List (RecipeStepModel F)))
      (deps_by_item : List (Bytes × List (ℕ × List ℕ))) (caps : List (ℕ × ℕ))
      (items : List (Bytes × ℤ)) (draft : Draft F) (tasks : List (TaskModel F))
      → add_items steps_by_item deps_by_item caps items (record { task_rows = []; dep_links = [] })
        ≡ ok draft
      → length tasks ≡ length draft.task_rows
      → All (λ t. t.id < u64_mod) tasks
      → All IsDrafted draft.task_rows
        × (check_links (length draft.task_rows) draft.dep_links ≡ ok tt)
        × (r : List Bytes × List TaskDependencyModel) × (dependency_rows tasks draft.dep_links
              ([], [])
            ≡ ok r)
        × AreRowsOf tasks draft.dep_links r.1
        × ArePaired r.1
  add_items_rows steps_by_item deps_by_item caps items draft tasks drafted stored small =
      let (rows_ok, checked, (r, built)) =
        add_items_links steps_by_item deps_by_item caps items draft tasks drafted stored in
      let sound : IfOk (AreSound tasks) (ok r) =
        subst (IfOk (AreSound tasks)) built
          (dependency_rows-AreSound tasks draft.dep_links ([], []) (tt, tt, tt)) in
      (
        rows_ok,
        checked,
        r,
        built,
        dependency_rows-AreRowsOf tasks draft.dep_links small r built,
        sound.1,
      )
