-- ===== src/Tests/Confirming.antt =====
-- A run of ConfirmOrder and of the requests after it, and the theorems about them.
use kitchen_ops.Base.{
  ap, false, All, ℕ, find?, has_key, ◌≡◌, refl, some, List, [], ◌∷◌, ◌++◌, pos, codes, arith,
}
use kitchen_ops.Base.Decimal.{format_uint, parse_uint}
use kitchen_ops.Models.{TaskStatus, TaskModel}
use kitchen_ops.Runtime.{Kitchen, Result, ok, call, on_tx, transaction, seconds}
use kitchen_ops.Repository.Recipes.{
  get_list, get_active_recipe_steps_by_items, get_recipe_step_dependencies_by_items,
  get_machine_capacities_by_ids, read_capacities, unique_keys, unique_ids, group_steps,
  group_dependencies, update_list, capacities,
}
use kitchen_ops.Repository.Orders.{
  create_order_with_tasks, create_order, create_task, create_tasks, create_dependencies,
  insert_task_dependencies, recalculate_pending_deps_for_order, list_order_ready_tasks,
}
use kitchen_ops.Repository.Events.{insert_domain_event_no_tx}
use kitchen_ops.Application.Scores
use kitchen_ops.Application.Dependencies.{
  infer_recipe_task_deps, infer_fallback, add_machine, add_previous, add_assembly, add_prior,
  add_edge, add_found, add_pair, step_by_order, is_assembly_like,
}
use kitchen_ops.Application.Orders.{
  ConfirmOrderRequest, add_items, add_item, add_units, add_steps, check_links, dependency_rows,
  add_row, link_tasks, announce_tasks, place_order, confirm_order,
}
use kitchen_ops.Repository.Allocation.{
  lock_task_for_assignment, find_eligible_staff, lock_counter, lock_machine_for_task, lock_staff,
  update_task_assignment, increment_staff_active_tasks,
}
use kitchen_ops.Repository.Events.{insert_domain_event}
use kitchen_ops.Repository.Lifecycle.{
  read_task_locked, update_task_status_started, update_task_status_completed,
  increment_counter_usage, increment_machine_usage, decrement_dependent_pending_deps,
  update_staff_efficiency_and_active, get_task_by_id, requeue_all, expired_tasks, requeue_body,
  requeue_expired_assigned_tasks,
}
use kitchen_ops.Repository.Orders.{
  close_order, complete_order_if_all_tasks_done, mark_order_in_progress_if_confirmed,
  mark_order_part_completed_if_not_done,
}
use kitchen_ops.Application.Scores.{queue_score, staff_score, pick_from, pick_staff}
use kitchen_ops.Application.Allocation.{
  record_assignment, assign_among, assign_task, settle, put_back, try_assign, assign_each,
  enqueue_requeued, requeue_expired, allocate_once,
}
use kitchen_ops.Temporal.{handle_event, forgive, complete_task_by_id_activity}
use kitchen_ops.Application.Tasks.{
  start_body, start_task, announce_child, announce_ready, complete_body, complete_task,
}
use kitchen_ops.Queue.{delete, delete_all}
use kitchen_ops.Application.Orders.Placed.{WithinSequences}
use kitchen_ops.Application.Orders.Confirmed.{Settled, Confirms, confirm_order-Settled}
use kitchen_ops.Consistency.Board.Counts.{is_open}
use kitchen_ops.Consistency.History.{
  History, opening, serves, confirms, History-respects_dependencies,
}
use kitchen_ops.Tests.Board.{tables-AreCounted}
use kitchen_ops.Queue
use kitchen_ops.Samples.{Items, calm, kitchen, tables, oven, bake}
use kitchen_ops.Consistency.Requests.{allocates, starts, completes, serve, serve_all}
use kitchen_ops.Tests.{shift}
use kitchen_ops.Tests.Orders.{pie}

-- The small kitchen, with a recipe.
abbrev bakery : Kitchen ℕ Items
bakery = record kitchen {
  db = record tables {
    recipe_steps = pie;
    machines = oven ∷ record oven { id = 5; name = codes "pass" } ∷ [];
  };
}

abbrev a_pie : ConfirmOrderRequest
a_pie = record { external_order_id = codes "ord-2"; items = (codes "pie", pos 1) ∷ [] }

abbrev placed : Result (ℕ × List ℕ) × Kitchen ℕ Items
placed = confirm_order calm a_pie bakery

placed_tasks : placed.0 ≡ ok (2, 6 ∷ [])
unfolding confirm_order get_active_recipe_steps_by_items get_recipe_step_dependencies_by_items
    get_machine_capacities_by_ids read_capacities unique_keys unique_ids group_steps
    group_dependencies capacities get_list update_list add_items add_item add_units add_steps
    infer_recipe_task_deps infer_fallback add_machine add_previous add_assembly add_prior add_edge
    add_found add_pair step_by_order is_assembly_like format_uint place_order link_tasks check_links
    dependency_rows add_row create_order_with_tasks create_order create_task create_tasks
    create_dependencies insert_task_dependencies recalculate_pending_deps_for_order
    list_order_ready_tasks announce_tasks insert_domain_event_no_tx transaction call on_tx
    Scores.enqueue queue_score seconds Queue.enqueue
placed_tasks = refl

abbrev evening : Kitchen ℕ Items
evening = serve_all calm placed.1 (shift ++ starts 6 ∷ completes 6 ∷ allocates ∷ [])

-- The glazing of the pie, which waited for the baking.
abbrev glazing : TaskModel ℕ
glazing = record bake {
  id = 7;
  order_id = 2;
  description = codes "pie :: glaze";
  assigned_staff_id = some 9;
  assigned_machine_id = some 4;
  status = TaskStatus.assigned;
  assignment_version = 1;
  assigned_at = some 200000000000;
  created_at = 107000000000;
}

glazing_assigned : find? (has_key (λ t. t.id) 7) evening.db.tasks ≡ some glazing
unfolding confirm_order get_active_recipe_steps_by_items get_recipe_step_dependencies_by_items
    get_machine_capacities_by_ids read_capacities unique_keys unique_ids group_steps
    group_dependencies capacities get_list update_list add_items add_item add_units add_steps
    infer_recipe_task_deps infer_fallback add_machine add_previous add_assembly add_prior add_edge
    add_found add_pair step_by_order is_assembly_like format_uint place_order link_tasks check_links
    dependency_rows add_row create_order_with_tasks create_order create_task create_tasks
    create_dependencies insert_task_dependencies recalculate_pending_deps_for_order
    list_order_ready_tasks announce_tasks insert_domain_event_no_tx transaction call on_tx
    Scores.enqueue queue_score seconds Queue.enqueue handle_event forgive
    complete_task_by_id_activity serve serve_all parse_uint lock_task_for_assignment
    find_eligible_staff lock_counter lock_machine_for_task lock_staff update_task_assignment
    increment_staff_active_tasks insert_domain_event read_task_locked update_task_status_started
    update_task_status_completed increment_counter_usage increment_machine_usage
    decrement_dependent_pending_deps update_staff_efficiency_and_active get_task_by_id requeue_all
    expired_tasks requeue_body requeue_expired_assigned_tasks close_order
    complete_order_if_all_tasks_done mark_order_in_progress_if_confirmed
    mark_order_part_completed_if_not_done Scores.pop_top_n staff_score pick_from pick_staff
    record_assignment assign_among assign_task settle put_back try_assign assign_each
    enqueue_requeued requeue_expired allocate_once start_body start_task announce_child
    announce_ready complete_body complete_task Queue.pop_top_n delete delete_all
glazing_assigned = refl

bakery-WithinSequences : WithinSequences bakery
bakery-WithinSequences = record { tasks = omega arith; dependencies = omega arith }

confirm_order-Settled_example : Settled calm (Confirms calm a_pie bakery) bakery placed
confirm_order-Settled_example = confirm_order-Settled calm a_pie bakery bakery-WithinSequences

day : History calm bakery evening
day =
    serves
      (confirms opening a_pie (
        ap (λ r. let pair : Result (ℕ × List ℕ) × Kitchen ℕ Items = (r, placed.1) in pair)
          placed_tasks))
      (shift ++ starts 6 ∷ completes 6 ∷ allocates ∷ [])

History-respects_dependencies_example :
    All
      (λ d. d.task_id ≡ 7 → is_open evening.db.tasks d.depends_on_task_id ≡ false)
      evening.db.task_dependencies
History-respects_dependencies_example =
    History-respects_dependencies calm day 7 glazing tables-AreCounted bakery-WithinSequences
      glazing_assigned refl
