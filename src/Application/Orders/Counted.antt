-- ===== src/Application/Orders/Counted.antt =====
-- The dependencies of a new order, stored and counted.
use kitchen_ops.Base.{
  ℕ, ◌≤◌, ◌<◌, ◌≡◌, refl, sym, ap, ◌∙◌, subst, List, [], ◌∷◌, ◌++◌, append-nil, Bytes, map, where_,
  any, update_where, All, ◌==◌,
}
use kitchen_ops.Models.{ArePaired, Database, TaskModel, TaskDependencyModel}
use kitchen_ops.Runtime.{Services, Kitchen, ok}
use kitchen_ops.Runtime.Either.{OnEither, HasFailed, call_last_either, bind-OnEither}
use kitchen_ops.Repository.Orders.{
  is_order_dependency, recalculate_row, insert_task_dependencies,
  recalculate_pending_deps_for_order,
}
use kitchen_ops.Application.Dependencies.{TaskDepPair}
use kitchen_ops.Application.Orders.{dependency_rows, link_tasks}
use kitchen_ops.Application.Orders.Links.{IfOk}
use kitchen_ops.Application.Orders.Created.{IsNew}
use kitchen_ops.Application.Orders.Recalculated.{AreWithin, waits_for, sub_query, recalculated}
use kitchen_ops.Application.Orders.Linked.{AreSound, dependency_rows-AreSound}

module _ {F Q : Type 0} where
  -- The queue and the sequences are the same.
  pub record SameOutside (s t : Kitchen F Q) : Type 0 where
    pub same_queue : t.queue ≡ s.queue
    pub same_orders : t.order_seq ≡ s.order_seq
    pub same_tasks : t.task_seq ≡ s.task_seq

abbrev pub with_dependencies : {F : Type 0} → Database F → List TaskDependencyModel → Database F
with_dependencies db deps = record db { task_dependencies = db.task_dependencies ++ deps }

ok_injective : {A : Type 0} {a b : A} → ok a ≡ ok b → a ≡ b
ok_injective e = cc

unlinked :
    {F : Type 0} (order_id last : ℕ) (rows : List (TaskModel F))
    → All (IsNew order_id last) rows
    → map (waits_for []) rows ≡ rows
unlinked order_id last [] new = refl
unlinked order_id last (row ∷ rows) new =
    cc (ap (λ n. record row { pending_deps = n }) (sym new.0.3), unlinked order_id last rows new.1)

-- The UPDATE of RecalculatePendingDepsForOrder.
abbrev recalculated_tasks :
    {F : Type 0} → ℕ → List (TaskModel F) → List TaskDependencyModel → List (TaskModel F)
recalculated_tasks order_id tasks deps =
    let sub = where_ (is_order_dependency tasks order_id) deps in
    update_where (λ t. any (λ d. d.task_id == t.id) sub) (recalculate_row sub) tasks

module _ {F Q : Type 0} (w : Services F Q) (slack : ℕ) where
  insert-OnEither :
      (deps : List TaskDependencyModel) (s : Kitchen F Q)
      → OnEither
          (HasFailed w slack)
          (λ _ t. (t.db ≡ with_dependencies s.db deps) × SameOutside s t)
          (insert_task_dependencies w deps s)
  unfolding insert_task_dependencies
  insert-OnEither [] s = (
    ap (λ ds. record (s.db) { task_dependencies = ds }) (sym (append-nil s.db.task_dependencies)),
    record { same_queue = refl; same_orders = refl; same_tasks = refl },
  )
  insert-OnEither (d ∷ deps) s =
      call_last_either w slack (λ _ t. (t.db ≡ with_dependencies s.db (d ∷ deps)) × SameOutside s t)
        _ s (refl, record { same_queue = refl; same_orders = refl; same_tasks = refl })

  module _ (order_id last : ℕ) (old rows : List (TaskModel F)) (s : Kitchen F Q)
      (there : s.db.tasks ≡ old ++ rows)
      (older : All (λ t. (t.id ≤ last) × (t.order_id < order_id)) old)
      (new : All (IsNew order_id last) rows)
      (bounded : All (λ d. d.task_id ≤ last) s.db.task_dependencies) where
    abbrev pub counted : List TaskDependencyModel → Database F
    counted deps = record (with_dependencies s.db deps) { tasks = old ++ map (waits_for deps) rows }

    written :
        (deps : List TaskDependencyModel) (tasks : List (TaskModel F))
        → AreWithin rows deps
        → tasks ≡ old ++ rows
        → recalculated_tasks order_id tasks (s.db.task_dependencies ++ deps)
          ≡ old ++ map (waits_for deps) rows
    written deps tasks within e =
        rw
          (e, sub_query order_id last old rows older new s.db.task_dependencies deps bounded within)
          (recalculated order_id last old rows older new deps within)

    pub link_tasks-Counted :
        (links : List TaskDepPair) (r : List Bytes × List TaskDependencyModel)
        → dependency_rows rows links ([], []) ≡ ok r
        → OnEither
            (HasFailed w slack)
            (λ _ t. (t.db ≡ counted r.1) × SameOutside s t × AreWithin rows r.1 × ArePaired r.1)
            (link_tasks w order_id rows links s)
    unfolding link_tasks recalculate_pending_deps_for_order dependency_rows
    link_tasks-Counted [] r e =
        subst (λ r'. (s.db ≡ counted r'.1) × SameOutside s s × AreWithin rows r'.1 × ArePaired r'.1)
          (ok_injective e)
          (
            ap (λ ts. record (s.db) { tasks = ts })
                  (there ∙ ap (λ ts. old ++ ts) (sym (unlinked order_id last rows new)))
                ∙ ap
                    (λ ds. record (s.db) {
                      tasks = old ++ map (waits_for []) rows;
                      task_dependencies = ds;
                    })
                    (sym (append-nil s.db.task_dependencies)),
            record { same_queue = refl; same_orders = refl; same_tasks = refl },
            tt,
            tt,
          )
    link_tasks-Counted (link ∷ links) r e =
        let sound : IfOk (AreSound rows) (ok r) =
          subst (IfOk (AreSound rows)) e
            (dependency_rows-AreSound rows (link ∷ links) ([], []) (tt, tt, tt)) in
        rw e (
          bind-OnEither (HasFailed w slack)
            (λ _ t. (t.db ≡ with_dependencies s.db r.1) × SameOutside s t)
            (λ _ t. (t.db ≡ counted r.1) × SameOutside s t × AreWithin rows r.1 × ArePaired r.1) _ _
            (insert-OnEither r.1 s)
            (λ _ t (same, outside).
              call_last_either w slack
                (λ _ u. (u.db ≡ counted r.1) × SameOutside s u × AreWithin rows r.1 × ArePaired r.1)
                _ t
                (
                  ap
                        (λ (db : Database F). record db {
                          tasks = recalculated_tasks order_id db.tasks db.task_dependencies;
                        })
                        same
                      ∙ ap (λ ts. record (with_dependencies s.db r.1) { tasks = ts })
                          (written r.1 s.db.tasks sound.0 there),
                  record {
                    same_queue = outside.same_queue;
                    same_orders = outside.same_orders;
                    same_tasks = outside.same_tasks;
                  },
                  sound.0,
                  sound.1,
                )))
