-- ===== src/Application/Orders/Created.antt =====
-- What CreateOrderWithTasks stores: the order, and a row for each drafted task.
use kitchen_ops.Base.{
  suc, ℕ, ◌+◌, ◌≤◌, ◌<◌, All, ◌≡◌, refl, sym, ap, ◌∙◌, false, List, [], ◌∷◌, ◌++◌, append-nil,
  append_assoc, Bytes, length, arith,
}
use kitchen_ops.Models.{Database, TaskStatus, OrderStatus, OrderModel, TaskModel}
use kitchen_ops.Runtime.{Services, Kitchen, next_call}
use kitchen_ops.Runtime.Either.{
  OnEither, HasFailed, on_tx-OnEither, bind-OnEither, transaction-OnEither,
}
use kitchen_ops.Repository.Orders.{
  create_order, create_task, create_tasks, create_dependencies, create_order_with_tasks,
}

abbrev pub new_order : ℕ → Bytes → ℕ → OrderModel
new_order id name created_at = record {
  id = id;
  external_order_id = name;
  status = OrderStatus.confirmed;
  created_at = created_at;
}

module _ {F : Type 0} where
  -- The row that a drafted task gets as a task of an order.
  abbrev pub stored_row : ℕ → ℕ → ℕ → TaskModel F → TaskModel F
  stored_row order_id id created_at draft = record draft {
    id = id;
    order_id = order_id;
    status = TaskStatus.unassigned;
    created_at = created_at;
  }

  -- The rows of drafted tasks in turn, whose ids follow a given one.
  abbrev pub AreStored : ℕ → ℕ → List (TaskModel F) → List (TaskModel F) → Type 0
  AreStored order_id last [] [] = Unit
  AreStored order_id last [] (row ∷ rows) = ⊥
  AreStored order_id last (draft ∷ drafts) [] = ⊥
  AreStored order_id last (draft ∷ drafts) (row ∷ rows) =
      ((created_at : ℕ) × (row ≡ stored_row order_id (last + 1) created_at draft))
      × AreStored order_id (last + 1) drafts rows

  abbrev pub with_tasks : Database F → List (TaskModel F) → Database F
  with_tasks db rows = record db { tasks = db.tasks ++ rows }

  abbrev pub with_order : Database F → OrderModel → Database F
  with_order db order = record db { orders = db.orders ++ order ∷ [] }

module _ {F Q : Type 0} where
  -- From s to t, rows for the drafts have been appended.
  pub record TasksCreated (order_id : ℕ) (drafts : List (TaskModel F)) (s : Kitchen F Q)
      (rows : List (TaskModel F)) (t : Kitchen F Q) : Type 0 where
    pub live : t.aborted ≡ false
    pub stored : AreStored order_id s.task_seq drafts rows
    pub same_db : t.db ≡ with_tasks s.db rows
    pub same_queue : t.queue ≡ s.queue
    pub same_orders : t.order_seq ≡ s.order_seq
    pub drawn : t.task_seq ≡ s.task_seq + length drafts

module _ {F Q : Type 0} (w : Services F Q) (slack : ℕ) where
  create_tasks-TasksCreated :
      (order_id : ℕ) (drafts : List (TaskModel F)) (s : Kitchen F Q)
      → s.aborted ≡ false
      → OnEither
          (HasFailed w slack)
          (TasksCreated order_id drafts s)
          (create_tasks w order_id drafts s)
  unfolding create_tasks create_task
  create_tasks-TasksCreated order_id [] s live = record {
    live = live;
    stored = tt;
    same_db = ap (λ tasks. record (s.db) { tasks = tasks }) (sym (append-nil s.db.tasks));
    same_queue = refl;
    same_orders = refl;
    drawn = omega arith;
  }
  create_tasks-TasksCreated order_id (draft ∷ drafts) s live =
      on_tx-OnEither w slack (TasksCreated order_id (draft ∷ drafts) s) _ _ s live (
        bind-OnEither (HasFailed w slack) (TasksCreated order_id drafts _) _ _ _
          (create_tasks-TasksCreated order_id drafts _ live)
          (λ rows t h. record {
            live = h.live;
            stored = ((_, refl), h.stored);
            same_db =
                h.same_db
                ∙ ap (λ tasks. record (s.db) { tasks = tasks }) (append_assoc s.db.tasks _ rows);
            same_queue = h.same_queue;
            same_orders = h.same_orders;
            drawn = omega (arith, h.drawn);
          }))

module _ {F Q : Type 0} where
  -- From s to t, an order has been stored with rows for the drafts.
  pub record OrderCreated (name : Bytes) (drafts : List (TaskModel F)) (s : Kitchen F Q)
      (placed : OrderModel × List (TaskModel F)) (t : Kitchen F Q) : Type 0 where
    pub order : (created_at : ℕ) × (placed.0 ≡ new_order (s.order_seq + 1) name created_at)
    pub stored : AreStored (s.order_seq + 1) s.task_seq drafts placed.1
    pub same_db : t.db ≡ with_tasks (with_order s.db placed.0) placed.1
    pub same_queue : t.queue ≡ s.queue
    pub order_drawn : t.order_seq ≡ s.order_seq + 1
    pub tasks_drawn : t.task_seq ≡ s.task_seq + length drafts

module _ {F Q : Type 0} (w : Services F Q) (slack : ℕ) where
  pub create_order_with_tasks-OrderCreated :
      (name : Bytes) (drafts : List (TaskModel F)) (s : Kitchen F Q)
      → OnEither
          (HasFailed w (suc slack))
          (OrderCreated name drafts s)
          (create_order_with_tasks w name drafts [] s)
  unfolding create_order_with_tasks create_order create_dependencies
  create_order_with_tasks-OrderCreated name drafts s =
      transaction-OnEither w slack (OrderCreated name drafts s) _ s (
        on_tx-OnEither w slack
          (λ p t. (t.aborted ≡ false) × OrderCreated name drafts s p (next_call t)) _ _ _ refl
          (bind-OnEither (HasFailed w slack) (TasksCreated (s.order_seq + 1) drafts _)
            (λ p t. (t.aborted ≡ false) × OrderCreated name drafts s p (next_call t)) _ _
            (create_tasks-TasksCreated w slack (s.order_seq + 1) drafts _ refl)
            (λ rows t h. (
              h.live,
              record {
                order = (_, refl);
                stored = h.stored;
                same_db = h.same_db;
                same_queue = h.same_queue;
                order_drawn = h.same_orders;
                tasks_drawn = h.drawn;
              },
            ))))

module _ {F : Type 0} where
  -- A row of a new order, whose id follows those below it.
  abbrev pub IsNew : ℕ → ℕ → TaskModel F → Type 0
  IsNew order_id last t =
      (last < t.id)
      × (t.order_id ≡ order_id)
      × (t.status ≡ TaskStatus.unassigned)
      × (t.pending_deps ≡ 0)

  pub AreStored-IsNew :
      (order_id last below : ℕ) (drafts rows : List (TaskModel F))
      → below ≤ last
      → All (λ d. d.pending_deps ≡ 0) drafts
      → AreStored order_id last drafts rows
      → All (IsNew order_id below) rows
  AreStored-IsNew order_id last below [] [] l free h = tt
  AreStored-IsNew order_id last below [] (row ∷ rows) l free h = absurd h
  AreStored-IsNew order_id last below (draft ∷ drafts) [] l free h = absurd h
  AreStored-IsNew order_id last below (draft ∷ drafts) (row ∷ rows) l free ((created_at, e), h) = (
    rw e (omega arith, refl, refl, free.0),
    AreStored-IsNew order_id (last + 1) below drafts rows (omega arith) free.1 h,
  )
