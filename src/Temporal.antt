-- ===== src/Temporal.antt =====
-- internal/temporalx and internal/orchestrator: what a published event sets off. The Temporal client
-- and its workflows' scheduling are outside the repository.
pub mod Bridge
pub mod Repeated
pub mod Worker
pub mod Workflows
use kitchen_ops.Base.{
  ℕ, Bool, true, false, ◌||◌, Option, none, some, ◌++◌, Bytes, ℤ, pos, negsuc, codes, if◌then◌else◌,
  ltb,
}
use kitchen_ops.Base.Decimal.{format_uint, parse_uint}
use kitchen_ops.Models.{EventType, DomainEvent, TaskModel}
use kitchen_ops.Runtime.{
  Services, Action, Result, ok, err, Error, ◌>>=◌, ◌>>◌, pure, throw, not_found, counter_busy,
  no_eligible_staff, missing_machine, not_assigned, not_started, missing_assigned_machine,
  missing_metadata, driver, items_required, no_tasks, recipe_not_found, step_missing_machine,
  invalid_indices, self_dependency, index_out_of_range,
}
use kitchen_ops.Application.Allocation.{allocate_once, attempt}
use kitchen_ops.Application.Tasks.{get_task, complete_task}
use kitchen_ops.Base.Text.{contains, trim_left, trim_right}

-- The event types that AllocationOrchestrator.HandleEvent lists.
abbrev pub is_listed : EventType → Bool
is_listed (EventType.other text) = false
is_listed _ = true

abbrev pub task_text : ℕ → Bytes → Bytes
task_text id text = codes "task " ++ (format_uint id ++ text)

-- err.Error()
abbrev pub error_text : Error → Bytes
error_text not_found = codes "not found"
error_text counter_busy = codes "counter busy"
error_text no_eligible_staff = codes "no eligible staff"
error_text (missing_machine id) = task_text id (codes " missing machine_id")
error_text (not_assigned id) = task_text id (codes " is not ASSIGNED")
error_text (not_started id) = task_text id (codes " is not STARTED")
error_text (missing_assigned_machine id) = task_text id (codes " missing assigned machine")
error_text (missing_metadata id) = task_text id (codes " missing assignment/start metadata")
error_text items_required = codes "items are required"
error_text no_tasks = codes "no tasks generated for order"
error_text (recipe_not_found item) = codes "recipe not found for item " ++ item
error_text (step_missing_machine item step) =
    codes "recipe step missing machine for item " ++ (item ++ (codes " step " ++ format_uint step))
error_text (invalid_indices task dep) =
    codes "invalid derived dependency indices task="
    ++ (format_uint task ++ (codes " dep=" ++ format_uint dep))
error_text (self_dependency task) =
    codes "invalid self dependency derived for task index " ++ format_uint task
error_text index_out_of_range = codes "runtime error: index out of range"
error_text (driver text) = text

module _ {F Q : Type 0} (w : Services F Q) where
  -- AllocationOrchestrator.HandleEvent, and RunAllocationActivity.
  unfoldable pub handle_event : DomainEvent → Action F Q (Unit {0})
  handle_event event = if is_listed event.type then (do allocate_once w; pure tt) else pure tt

  -- `if strings.Contains(msg, "is not STARTED") || strings.Contains(msg, "not found")`
  unfoldable pub forgive : Result (Unit {0}) → Action F Q (Unit {0})
  forgive (ok a) = pure tt
  forgive (err e) =
      let msg = error_text e in
      if contains msg (codes "is not STARTED") || contains msg (codes "not found")
      then pure tt
      else throw e

  unfoldable pub complete_task_by_id_activity : ℕ → Action F Q (Unit {0})
  complete_task_by_id_activity task_id = do
    result ← attempt (complete_task w task_id)
    forgive result
