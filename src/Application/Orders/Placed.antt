-- ===== src/Application/Orders/Placed.antt =====
-- What placing an order leaves, when it succeeds.
use kitchen_ops.Base.{
  ℕ, ◌+◌, ◌≤◌, sort, where_, ◌<◌, ◌≡◌, refl, sym, ap, ◌∙◌, subst, true, List, [], ◌∷◌, ◌++◌, Bytes,
  map, length, ltb, All, All-map, arith,
}
use kitchen_ops.Models.{
  ArePaired, Database, OrderModel, TaskModel, TaskDependencyModel, DomainEventModel,
}
use kitchen_ops.Runtime.{Services, Kitchen, Action, ok, ◌>>=◌, ◌>>◌, pure, next_call}
use kitchen_ops.Runtime.Either.{OnEither, HasFailed, call-OnEither, bind-OnEither}
use kitchen_ops.Repository.Orders.{list_order_ready_tasks}
use kitchen_ops.Application.Orders.{
  Draft, link_tasks, announce_tasks, check_links, dependency_rows, place_order,
}
use kitchen_ops.Application.Orders.Links.{IsDrafted}
use kitchen_ops.Application.Orders.Created.{
  AreStored, AreStored-IsNew, IsNew, new_order, OrderCreated, create_order_with_tasks-OrderCreated,
}
use kitchen_ops.Application.Orders.Recalculated.{AreWithin, waits_for}
use kitchen_ops.Application.Orders.Counted.{SameOutside, with_dependencies, link_tasks-Counted}
use kitchen_ops.Application.Orders.Announced.{
  is_ready, ready_of, listed, AreAnnounced, with_events, Enqueued, Announced,
  announce_tasks-Announced,
}

module _ {F Q : Type 0} where
  -- No row has an id that the sequences have not given yet.
  pub record WithinSequences (s : Kitchen F Q) : Type 0 where
    pub tasks : All (λ t. (t.id ≤ s.task_seq) × (t.order_id ≤ s.order_seq)) s.db.tasks
    pub dependencies :
        All
          (λ d. (d.task_id ≤ s.task_seq) × (d.depends_on_task_id ≤ s.task_seq))
          s.db.task_dependencies

module _ {F : Type 0} where
  -- The database with an order, its tasks and their dependencies.
  abbrev pub with_placed :
      Database F → OrderModel → List (TaskModel F) → List TaskDependencyModel → Database F
  with_placed db order rows deps = record db {
    orders = db.orders ++ order ∷ [];
    tasks = db.tasks ++ map (waits_for deps) rows;
    task_dependencies = db.task_dependencies ++ deps;
  }

  length-AreStored :
      (order_id last : ℕ) (drafts rows : List (TaskModel F))
      → AreStored order_id last drafts rows
      → length rows ≡ length drafts
  length-AreStored order_id last [] [] h = refl
  length-AreStored order_id last [] (row ∷ rows) h = absurd h
  length-AreStored order_id last (draft ∷ drafts) [] h = absurd h
  length-AreStored order_id last (draft ∷ drafts) (row ∷ rows) h =
      omega (arith, length-AreStored order_id (last + 1) drafts rows h.1)

module _ {F Q : Type 0} (w : Services F Q) where
  -- From s to t, the draft has been placed as an order under the name: `rows` are its tasks as they
  -- were created, and `deps` their dependencies.
  pub record Placed (name : Bytes) (draft : Draft F) (s : Kitchen F Q) (result : ℕ × List ℕ)
      (t : Kitchen F Q) : Type 0 where
    pub rows : List (TaskModel F)
    pub deps : List TaskDependencyModel
    pub created_at : ℕ
    pub events : List DomainEventModel
    pub order_id : result.0 ≡ s.order_seq + 1
    pub stored : AreStored result.0 s.task_seq draft.task_rows rows
    pub linked :
        (seen : List Bytes) × (dependency_rows rows draft.dep_links ([], []) ≡ ok (seen, deps))
    pub within : AreWithin rows deps
    pub paired : ArePaired deps
    pub database :
        t.db ≡ with_events (with_placed s.db (new_order result.0 name created_at) rows deps) events
    pub ready : result.1 ≡ map (λ r. r.id) (ready_of deps rows)
    pub announced : AreAnnounced (ready_of deps rows) events
    pub queued : Enqueued w (ready_of deps rows) s.queue t.queue
    pub order_drawn : t.order_seq ≡ s.order_seq + 1
    pub tasks_drawn : t.task_seq ≡ s.task_seq + length draft.task_rows

module _ {F Q : Type 0} (w : Services F Q) (name : Bytes) (draft : Draft F) (s : Kitchen F Q)
    (fresh : WithinSequences s) (drafted : All IsDrafted draft.task_rows)
    (linkable : (rows : List (TaskModel F))
      → length rows ≡ length draft.task_rows
      → (r : List Bytes × List TaskDependencyModel) × (dependency_rows rows draft.dep_links ([], [])
          ≡ ok r)) where
  module _ (placed : OrderModel × List (TaskModel F)) (t : Kitchen F Q)
      (h : OrderCreated name draft.task_rows s placed t) where
    id_is : placed.0.id ≡ s.order_seq + 1
    id_is = ap (λ o. o.id) h.order.1

    stored_here : AreStored placed.0.id s.task_seq draft.task_rows placed.1
    stored_here = rw id_is h.stored

    older : All (λ r. (r.id ≤ s.task_seq) × (r.order_id < placed.0.id)) s.db.tasks
    older = All-map _ _ s.db.tasks (λ r l. (l.0, omega (arith, l.1, id_is))) fresh.tasks

    new : All (IsNew placed.0.id s.task_seq) placed.1
    new =
        AreStored-IsNew placed.0.id s.task_seq s.task_seq draft.task_rows placed.1 (omega arith)
          (All-map _ _ draft.task_rows (λ r d. d.1) drafted) stored_here

    bounded : All (λ d. d.task_id ≤ s.task_seq) t.db.task_dependencies
    bounded =
        subst (λ db. All (λ d. d.task_id ≤ s.task_seq) db.task_dependencies) (sym h.same_db)
          (All-map _ _ s.db.task_dependencies (λ d l. l.0) fresh.dependencies)

    rest_of : Action F Q (ℕ × List ℕ)
    rest_of = do
      link_tasks w placed.0.id placed.1 draft.dep_links
      ready_tasks ← list_order_ready_tasks w placed.0.id
      ready_ids ← announce_tasks w ready_tasks
      pure (placed.0.id, ready_ids)

    rest_of-Placed : OnEither (HasFailed w 1) (Placed w name draft s) (rest_of t)
    unfolding rest_of list_order_ready_tasks
    rest_of-Placed =
        let (r, linked) = linkable placed.1 (length-AreStored _ _ _ _ h.stored) in
        let there : t.db.tasks ≡ s.db.tasks ++ placed.1 = ap (λ db. db.tasks) h.same_db in
        let tasks_after : List (TaskModel F) = s.db.tasks ++ map (waits_for r.1) placed.1 in
        bind-OnEither (HasFailed w 1)
          (λ _ u.
            (u.db ≡ record (with_dependencies t.db r.1) { tasks = tasks_after })
            × SameOutside t u
            × AreWithin placed.1 r.1
            × ArePaired r.1)
          (Placed w name draft s) _ _
          (link_tasks-Counted w 1 placed.0.id s.task_seq s.db.tasks placed.1 t there older new
            bounded draft.dep_links r linked)
          (λ _ u (same, outside, within, paired). call-OnEither w 1 (Placed w name draft s) _ _ u (
            bind-OnEither (HasFailed w 1) (Announced w _ (next_call u)) (Placed w name draft s) _ _
              (announce_tasks-Announced w 1 _ (next_call u))
              (λ ids v announced.
                let listing : sort (λ a b. ltb a.id b.id) (where_ (is_ready placed.0.id) u.db.tasks)
                    ≡ ready_of r.1 placed.1 =
                  ap
                    (λ (db : Database F).
                      sort (λ a b. ltb a.id b.id) (where_ (is_ready placed.0.id) db.tasks))
                    same
                  ∙ listed placed.0.id s.task_seq r.1 s.db.tasks draft.task_rows placed.1 older new
                      stored_here in
                let told : Announced w (ready_of r.1 placed.1) (next_call u) ids v =
                  subst (λ tasks. Announced w tasks (next_call u) ids v) listing announced in
                record {
                  rows = placed.1;
                  deps = r.1;
                  created_at = h.order.0;
                  events = told.events.0;
                  order_id = id_is;
                  stored = stored_here;
                  linked = (r.0, linked);
                  within = within;
                  paired = paired;
                  database =
                      told.events.1
                      ∙ ap (λ db. with_events db told.events.0)
                          (same
                            ∙ ap
                                (λ (db : Database F). record (with_dependencies db r.1) {
                                  tasks = tasks_after;
                                })
                                h.same_db
                            ∙ ap (λ o. with_placed s.db o placed.1 r.1)
                                (h.order.1 ∙ ap (λ i. new_order i name h.order.0) (sym id_is)));
                  ready = told.ids_are;
                  announced = told.events.2;
                  queued =
                      subst (λ q. Enqueued w (ready_of r.1 placed.1) q v.queue)
                        (outside.same_queue ∙ h.same_queue) told.queued;
                  order_drawn = told.same_orders ∙ outside.same_orders ∙ h.order_drawn;
                  tasks_drawn = told.same_tasks ∙ outside.same_tasks ∙ h.tasks_drawn;
                })))

  pub place_order-Placed :
      check_links (length draft.task_rows) draft.dep_links ≡ ok tt
      → ltb 0 (length draft.task_rows) ≡ true
      → OnEither (HasFailed w 1) (Placed w name draft s) (place_order w name draft s)
  unfolding place_order rest_of
  place_order-Placed checked some_task =
      rw (checked, some_task)
        (bind-OnEither (HasFailed w 1) (OrderCreated name draft.task_rows s) (Placed w name draft s)
          _ _ (create_order_with_tasks-OrderCreated w 0 name draft.task_rows s)
          (λ placed t h. rest_of-Placed placed t h))
