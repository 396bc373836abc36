-- ===== src/Tests/HalfPlaced.antt =====
-- A run of ConfirmOrder that fails half way.
use kitchen_ops.Base.{ℕ, ◌≡◌, refl, none, some, [], ◌∷◌, codes, map, ◌==◌, if◌then◌else◌}
use kitchen_ops.Base.Decimal.{format_uint}
use kitchen_ops.Runtime.{Services, err, driver, call, on_tx, transaction}
use kitchen_ops.Repository.Orders.{
  create_order_with_tasks, create_order, create_task, create_tasks, create_dependencies,
  insert_task_dependencies,
}
use kitchen_ops.Application.Orders.{place_order, link_tasks, check_links, dependency_rows, add_row}
use kitchen_ops.Samples.{Items, calm, kitchen}
use kitchen_ops.Tests.Orders.{pie_draft}

-- The insertion of the dependencies fails.
abbrev flaky : Services ℕ Items
flaky = record calm { fails = λ n. if n == 6 then some (codes "connection reset") else none }

half_placed :
    (place_order flaky (codes "ord-2") pie_draft kitchen).0
    ≡ err (driver (codes "connection reset"))
unfolding place_order link_tasks check_links dependency_rows add_row create_order_with_tasks
    create_order create_task create_tasks create_dependencies insert_task_dependencies transaction
    call on_tx format_uint
half_placed = refl

tasks_stay :
    map {B = ℕ × ℕ}
      (λ t. (t.id, t.pending_deps))
      (place_order flaky (codes "ord-2") pie_draft kitchen).1.db.tasks
    ≡ (3, 0) ∷ (5, 1) ∷ (6, 0) ∷ (7, 0) ∷ (8, 0) ∷ []
unfolding place_order link_tasks check_links dependency_rows add_row create_order_with_tasks
    create_order create_task create_tasks create_dependencies insert_task_dependencies transaction
    call on_tx format_uint
tasks_stay = refl
