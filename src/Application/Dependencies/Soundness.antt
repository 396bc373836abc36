-- ===== src/Application/Dependencies/Soundness.antt =====
-- The edges that the analyzer derives: in range, between two tasks, each once, and backward.
use kitchen_ops.Base.{
  ℕ, ◌≤◌, ◌<◌, ◌≡◌, ◌≢◌, refl, sym, ap, ◌∙◌, Bool, true, ◌||◌, Option, none, some, List, [], ◌∷◌,
  ◌++◌, Bytes, bytes_eq, any, sort, map, ltb, leb, ◌==◌, ==-self, if_elim, lookup, insert, All,
  All-append, All-map, All-lookup, All-insert, IsSorted, sort-IsSorted, Bool-cases, Option-cases,
  inl, inr, arith,
}
use kitchen_ops.Models.{RecipeStepModel}
use kitchen_ops.Application.Dependencies.{
  TaskDepPair, Edges, no_edges, edge_key, add_pair, add_found, add_edge, add_deps, add_explicit,
  add_prior, add_assembly, add_previous, add_machine, infer_fallback, infer_recipe_task_deps,
}

-- What holds of the edges after each addition holds after the loops.
module _ (idx : List (ℕ × ℕ)) (Good : Edges → Type 0) where
  module _ (adds : (t d : ℕ) (s : Edges) → Good s → Good (add_edge idx t d s)) where
    deps_good : (t : ℕ) (deps : List ℕ) (s : Edges) → Good s → Good (add_deps idx t deps s)
    unfolding add_deps
    deps_good t [] s h = h
    deps_good t (d ∷ deps) s h = deps_good t deps _ (adds t d s h)

    explicit_good :
        (entries : List (ℕ × List ℕ)) (s : Edges) → Good s → Good (add_explicit idx entries s)
    unfolding add_explicit
    explicit_good [] s h = h
    explicit_good (entry ∷ entries) s h = explicit_good entries _ (deps_good entry.0 entry.1 s h)

  module _ (adds : (t d : ℕ) (s : Edges) → d < t → Good s → Good (add_edge idx t d s)) where
    prior_good :
        (p : ℕ → Bool) (asm : ℕ) (orders : List ℕ) (s : Edges)
        → Good s
        → Good (add_prior idx p asm orders s)
    unfolding add_prior
    prior_good p asm [] s h = h
    prior_good p asm (so ∷ orders) s h =
        prior_good p asm orders _ (elim (Bool-cases (leb asm so || p so)) [
          | inl skipped ↦ rw skipped h
          | inr taken ↦ rw taken (adds asm so s (ground arith) h)
        ])

    assembly_good :
        (p : ℕ → Bool) (orders asms : List ℕ) (s : Edges)
        → Good s
        → Good (add_assembly idx p orders asms s)
    unfolding add_assembly
    assembly_good p orders [] s h = h
    assembly_good p orders (asm ∷ asms) s h =
        assembly_good p orders asms _ (prior_good p asm orders s h)

    previous_good :
        (so : ℕ) (prev : Option ℕ) (s : Edges)
        → ((p : ℕ) → prev ≡ some p → p ≤ so)
        → Good s
        → Good (add_previous idx so prev s)
    unfolding add_previous
    previous_good so none s before h = h
    previous_good so (some p) s before h = elim (Bool-cases (p == so)) [
      | inl same ↦ rw same h
      | inr other ↦ rw other (adds so p s (ground (arith, before p refl)) h)
    ]

    machine_good :
        (machine : ℕ → Option ℕ) (capacity : ℕ → ℕ) (previous : List (ℕ × ℕ)) (orders : List ℕ)
        (s : Edges)
        → IsSorted ltb orders
        → All (λ p. All (λ so. p.1 ≤ so) orders) previous
        → Good s
        → Good (add_machine idx machine capacity previous orders s)
    unfolding add_machine
    machine_good machine capacity previous [] s sorted earlier h = h
    machine_good machine capacity previous (so ∷ orders) s sorted earlier h =
        elim (Option-cases (machine so)) [
          | inl no_machine ↦
              rw (no_machine, add_machine)
                (machine_good machine capacity previous orders s sorted.1 later h)
          | inr (mid, found) ↦
              rw (found, add_machine)
                (machine_good machine capacity (insert mid so previous) orders _ sorted.1
                  (All-insert (λ p. All (λ o. p.1 ≤ o) orders) mid so previous
                    (All-map _ _ orders (λ o e. ground arith) sorted.0) later)
                  (if_elim Good (leb (capacity mid) 1)
                    (previous_good so (lookup mid previous) s
                      (λ p e.
                        All-lookup (λ _ q. q ≤ so) mid p previous
                          (All-map _ _ previous (λ q l. l.0) earlier) e)
                      h)
                    h))
        ]
      where
        later : All (λ p. All (λ o. p.1 ≤ o) orders) previous
        later = All-map _ _ previous (λ q l. l.1) earlier

    fallback_good :
        {F : Type 0} (steps : List (RecipeStepModel F)) (caps : List (ℕ × ℕ))
        → Good no_edges
        → Good (infer_fallback idx steps caps)
    unfolding infer_fallback
    fallback_good steps caps h =
        let orders = sort ltb (map (λ st. st.step_order) steps) in
        machine_good _ _ [] orders _
          (sort-IsSorted ltb (λ a b l. ground arith) (λ a b c k l. ground arith)
            (map (λ st. st.step_order) steps))
          tt (assembly_good _ orders _ no_edges h)

-- No element is found again.
abbrev pub IsDistinct {ℓ} : {A : Type ℓ} → List A → Type ℓ
IsDistinct [] = Unit
IsDistinct (x ∷ xs) = All (λ y. y ≢ x) xs × IsDistinct xs

IsDistinct-append :
    {A : Type 0} (xs : List A) (x : A)
    → IsDistinct xs
    → All (λ y. y ≢ x) xs
    → IsDistinct (xs ++ x ∷ [])
IsDistinct-append [] x h k = (tt, tt)
IsDistinct-append (y ∷ xs) x h k = (
  All-append (λ z. z ≢ y) xs (x ∷ []) h.0 ((λ e. k.0 (sym e)), tt),
  IsDistinct-append xs x h.1 k.1,
)

abbrev pub IsInRange : ℕ → TaskDepPair → Type 0
IsInRange n e = (e.task_idx < n) × (e.dep_idx < n) × (e.task_idx ≢ e.dep_idx)

record IsSound (n : ℕ) (s : Edges) : Type 0 where
  in_range : All (IsInRange n) s.edges
  distinct : IsDistinct s.edges
  recorded : All (λ e. any (bytes_eq (edge_key e)) s.seen ≡ true) s.edges

bytes_eq_self : (a : Bytes) → bytes_eq a a ≡ true
bytes_eq_self [] = refl
bytes_eq_self (x ∷ a) = rw (==-self x) (bytes_eq_self a)

add_pair-IsSound :
    (n : ℕ) (e : TaskDepPair) (s : Edges) → IsInRange n e → IsSound n s → IsSound n (add_pair e s)
unfolding add_pair
add_pair-IsSound n e s r h = elim (Bool-cases (any (bytes_eq (edge_key e)) s.seen)) [
  | inl seen ↦ rw seen h
  | inr fresh ↦ rw fresh (record {
    in_range = All-append (IsInRange n) s.edges (e ∷ []) h.in_range (r, tt);
    distinct = IsDistinct-append s.edges e h.distinct (
        All-map _ _ s.edges
          (λ f known same.
            absurd (
              ground
                (arith, sym known ∙ ap (λ g. any (bytes_eq (edge_key g)) s.seen) same ∙ fresh)))
          h.recorded);
    recorded =
        All-append _ s.edges (e ∷ []) (All-map _ _ s.edges (λ f known. ground arith) h.recorded)
          (rw (bytes_eq_self (edge_key e)) refl, tt);
  })
]

add_edge-IsSound :
    (n : ℕ) (idx : List (ℕ × ℕ))
    → All (λ p. p.1 < n) idx
    → (t d : ℕ) (s : Edges) → IsSound n s
    → IsSound n (add_edge idx t d s)
unfolding add_edge add_found
add_edge-IsSound n idx bounds t d s h =
    found (lookup t idx) (lookup d idx) (λ i e. All-lookup (λ _ j. j < n) t i idx bounds e)
      (λ i e. All-lookup (λ _ j. j < n) d i idx bounds e)
  where
    found :
        (a b : Option ℕ)
        → ((i : ℕ) → a ≡ some i → i < n)
        → ((i : ℕ) → b ≡ some i → i < n)
        → IsSound n (add_found a b s)
    found none b ha hb = h
    found (some i) none ha hb = h
    found (some i) (some j) ha hb = elim (Bool-cases (i == j)) [
      | inl same ↦ rw same h
      | inr other ↦ rw other (add_pair-IsSound n _ s (ha i refl, hb j refl, (λ e. ground arith)) h)
    ]

-- Let the steps' tasks have indices below n. Then each derived pair has two different indices
-- below n, and no pair is derived twice: with explicit dependencies and without.
pub infer_recipe_task_deps-IsInRange :
    {F : Type 0} (n : ℕ) (steps : List (RecipeStepModel F)) (idx : List (ℕ × ℕ))
    (explicit : List (ℕ × List ℕ)) (caps : List (ℕ × ℕ))
    → All (λ p. p.1 < n) idx
    → let pairs = infer_recipe_task_deps steps idx explicit caps in
      All (IsInRange n) pairs × IsDistinct pairs
unfolding infer_recipe_task_deps
infer_recipe_task_deps-IsInRange n steps idx [] caps bounds =
    let sound =
      fallback_good idx (IsSound n) (λ t d s l. add_edge-IsSound n idx bounds t d s) steps caps
        (record { in_range = tt; distinct = tt; recorded = tt }) in
    (sound.in_range, sound.distinct)
infer_recipe_task_deps-IsInRange n steps idx (entry ∷ entries) caps bounds =
    let sound =
      explicit_good idx (IsSound n) (add_edge-IsSound n idx bounds) (entry ∷ entries) no_edges
        (record { in_range = tt; distinct = tt; recorded = tt }) in
    (sound.in_range, sound.distinct)

-- A later step has a later task.
abbrev pub IsIncreasing : List (ℕ × ℕ) → Type 0
IsIncreasing idx = (a b i j : ℕ) → lookup a idx ≡ some i → lookup b idx ≡ some j → a < b → i < j

abbrev pub IsBackward : TaskDepPair → Type 0
IsBackward e = e.dep_idx < e.task_idx

add_edge-IsBackward :
    (idx : List (ℕ × ℕ))
    → IsIncreasing idx
    → (t d : ℕ) (s : Edges) → d < t
    → All IsBackward s.edges
    → All IsBackward (add_edge idx t d s).edges
unfolding add_edge add_found add_pair
add_edge-IsBackward idx up t d s l h =
    found (lookup t idx) (lookup d idx) (λ i j ei ej. up d t j i ej ei l)
  where
    found :
        (a b : Option ℕ)
        → ((i j : ℕ) → a ≡ some i → b ≡ some j → j < i)
        → All IsBackward (add_found a b s).edges
    found none b lt = h
    found (some i) none lt = h
    found (some i) (some j) lt =
        if_elim (λ (r : Edges). All IsBackward r.edges) (i == j) h
          (if_elim (λ (r : Edges). All IsBackward r.edges) _ h
            (All-append _ s.edges _ h (lt i j refl refl, tt)))

-- Without explicit dependencies, where later steps have later tasks, every task waits only for
-- earlier ones: the derived pairs have no cycle.
pub infer_recipe_task_deps-IsBackward :
    {F : Type 0} (steps : List (RecipeStepModel F)) (idx : List (ℕ × ℕ)) (caps : List (ℕ × ℕ))
    → IsIncreasing idx
    → All IsBackward (infer_recipe_task_deps steps idx [] caps)
unfolding infer_recipe_task_deps
infer_recipe_task_deps-IsBackward steps idx caps up =
    fallback_good idx (λ s. All IsBackward s.edges) (add_edge-IsBackward idx up) steps caps tt
