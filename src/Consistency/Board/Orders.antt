-- ===== src/Consistency/Board/Orders.antt =====
-- A closed order has no task left.
use kitchen_ops.Base.{
  ℕ, ◌≡◌, ◌≤◌, refl, Bool, true, false, not, ◌&&◌, ◌||◌, some, List, [], ◌∷◌, ◌==◌, IsKeyed, find?,
  has_key, update_where, All, All-map, count-update, ltb, any, Bool-cases, inl, inr, arith, subst,
}
use kitchen_ops.Models.{
  OrderStatus, OrderModel, TaskModel, is_completed, order_is_confirmed, order_is_in_progress,
  order_is_completed,
}
use kitchen_ops.Repository.Lifecycle.{
  start_row, complete_row, requeue_row, is_dependent, unblock_row,
}
use kitchen_ops.Repository.Allocation.{assign_row}
use kitchen_ops.Consistency.Board.{
  Board, Move, assigns, starts, requeues, completes, Moves, here, next, Move-IsKeyed, remaining,
  set_row, begin_order, advance_order, finish_order, completed_orders, completed_tasks,
}

module _ {F : Type 0} where
  -- Every task of a completed order is completed.
  abbrev pub IsClosed : List (TaskModel F) → OrderModel → Type 0
  IsClosed tasks o = order_is_completed o.status ≡ true → remaining o.id tasks ≡ 0

  abbrev pub AreClosed : List (TaskModel F) → List OrderModel → Type 0
  AreClosed tasks orders = All (IsClosed tasks) orders

  -- A write of one row that does not take its completion back leaves no more to do.
  remaining-set_row :
      (id k : ℕ) (g : TaskModel F → TaskModel F) (tasks : List (TaskModel F)) (t : TaskModel F)
      → IsKeyed (λ r. r.id) tasks
      → find? (has_key (λ r. r.id) k) tasks ≡ some t
      → (g t).order_id ≡ t.order_id
      → is_completed t.status ≡ false
      → remaining id (set_row k g tasks) ≤ remaining id tasks
  remaining-set_row id k g tasks t keyed found same unfinished = ground (
    arith,
    count-update (λ r. r.id) (λ r. (r.order_id == id) && not (is_completed r.status)) k g tasks t
        keyed found,
  )

  remaining-unblock :
      (id : ℕ) (p : TaskModel F → Bool) (tasks : List (TaskModel F))
      → remaining id (update_where p unblock_row tasks) ≡ remaining id tasks
  remaining-unblock id p [] = refl
  remaining-unblock id p (t ∷ tasks) = ground (arith, remaining-unblock id p tasks)

  AreClosed-fewer :
      (before after : List (TaskModel F)) (orders : List OrderModel)
      → ((id : ℕ) → remaining id after ≤ remaining id before)
      → AreClosed before orders
      → AreClosed after orders
  AreClosed-fewer before after orders fewer =
      All-map (IsClosed before) (IsClosed after) orders
        (λ o h done. omega (arith, h done, fewer o.id))

  -- Marks that complete no order.
  AreClosed-mark :
      (tasks : List (TaskModel F)) (p : OrderModel → Bool) (g : OrderModel → OrderModel)
      (orders : List OrderModel)
      → ((o : OrderModel) → order_is_completed (g o).status ≡ false)
      → AreClosed tasks orders
      → AreClosed tasks (update_where p g orders)
  AreClosed-mark tasks p g [] unfinished h = tt
  AreClosed-mark tasks p g (o ∷ orders) unfinished h = elim (Bool-cases (p o)) [
    | inl hit ↦
        rw hit
          ((λ done. ground (arith, unfinished o)), AreClosed-mark tasks p g orders unfinished h.1)
    | inr miss ↦ rw miss (h.0, AreClosed-mark tasks p g orders unfinished h.1)
  ]

  AreClosed-begin :
      (id : ℕ) (tasks : List (TaskModel F)) (orders : List OrderModel)
      → AreClosed tasks orders
      → AreClosed tasks (begin_order id orders)
  AreClosed-begin id tasks orders h =
      AreClosed-mark tasks (λ o. (o.id == id) && order_is_confirmed o.status)
        (λ o. record o { status = OrderStatus.in_progress }) orders (λ o. refl) h

  AreClosed-advance :
      (id : ℕ) (tasks : List (TaskModel F)) (orders : List OrderModel)
      → AreClosed tasks orders
      → AreClosed tasks (advance_order id orders)
  AreClosed-advance id tasks orders h =
      AreClosed-mark tasks
        (λ o. (o.id == id) && (order_is_confirmed o.status || order_is_in_progress o.status))
        (λ o. record o { status = OrderStatus.part_completed }) orders (λ o. refl) h

  AreClosed-finish :
      (tasks : List (TaskModel F)) (id : ℕ) (orders : List OrderModel)
      → remaining id tasks ≡ 0
      → AreClosed tasks orders
      → AreClosed tasks (finish_order id orders)
  AreClosed-finish tasks id [] none_left h = tt
  AreClosed-finish tasks id (o ∷ orders) none_left h =
      elim (Bool-cases ((o.id == id) && not (order_is_completed o.status))) [
        | inl hit ↦ rw hit (
          (λ done. subst (λ n. remaining n tasks ≡ 0) (ground arith) none_left),
          AreClosed-finish tasks id orders none_left h.1,
        )
        | inr miss ↦ rw miss (h.0, AreClosed-finish tasks id orders none_left h.1)
      ]

  AreClosed-set_row :
      (k : ℕ) (g : TaskModel F → TaskModel F) (t : TaskModel F) (tasks : List (TaskModel F))
      (orders : List OrderModel)
      → IsKeyed (λ r. r.id) tasks
      → find? (has_key (λ r. r.id) k) tasks ≡ some t
      → (g t).order_id ≡ t.order_id
      → is_completed t.status ≡ false
      → AreClosed tasks orders
      → AreClosed (set_row k g tasks) orders
  AreClosed-set_row k g t tasks orders keyed found same unfinished =
      AreClosed-fewer tasks (set_row k g tasks) orders
        (λ id. remaining-set_row id k g tasks t keyed found same unfinished)

  AreClosed-completed :
      (id : ℕ) (tasks : List (TaskModel F)) (orders : List OrderModel)
      → AreClosed tasks orders
      → AreClosed tasks (completed_orders id tasks orders)
  AreClosed-completed id tasks orders h = elim (Bool-cases (ltb 0 (remaining id tasks))) [
    | inl some_left ↦ rw some_left (AreClosed-advance id tasks orders h)
    | inr none_left ↦ rw none_left (
        AreClosed-finish tasks id (advance_order id orders) (ground arith)
          (AreClosed-advance id tasks orders h))
  ]

  Move-AreClosed :
      {b c : Board F}
      → Move b c
      → IsKeyed (λ t. t.id) b.tasks
      → AreClosed b.tasks b.orders
      → AreClosed c.tasks c.orders
  Move-AreClosed {b} (assigns t i m now found free ready e) keyed h = rw e (
      AreClosed-begin t.order_id _ b.orders (
        AreClosed-set_row t.id (assign_row i m now) t b.tasks b.orders keyed found refl
          (ground arith) h))
  Move-AreClosed {b} (starts t now found active e) keyed h =
      rw e (
        AreClosed-set_row t.id (start_row now) t b.tasks b.orders keyed found refl (ground arith) h)
  Move-AreClosed {b} (requeues t found active e) keyed h =
      rw e (AreClosed-set_row t.id requeue_row t b.tasks b.orders keyed found refl (ground arith) h)
  Move-AreClosed {b} (completes t now found active e) keyed h = rw e (
      AreClosed-completed t.order_id (completed_tasks now t.id b.dependencies b.tasks) b.orders (
        AreClosed-fewer (set_row t.id (complete_row now) b.tasks) _ b.orders
          (λ id. omega (
            arith,
            remaining-unblock id (λ r. any (is_dependent t.id r) b.dependencies)
                (set_row t.id (complete_row now) b.tasks),
          ))
          (AreClosed-set_row t.id (complete_row now) t b.tasks b.orders keyed found refl
            (ground arith) h)))

  pub Moves-AreClosed :
      {b c : Board F}
      → Moves b c
      → IsKeyed (λ t. t.id) b.tasks
      → AreClosed b.tasks b.orders
      → IsKeyed (λ t. t.id) c.tasks × AreClosed c.tasks c.orders
  Moves-AreClosed here keyed h = (keyed, h)
  Moves-AreClosed (next moves move) keyed h =
      let (k, a) = Moves-AreClosed moves keyed h in (Move-IsKeyed move k, Move-AreClosed move k a)
