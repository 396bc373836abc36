-- ===== src/Temporal/Workflows.antt =====
-- internal/temporalx: the workflow that the bridge starts for an event, and what it runs. Running an
-- activity and sleeping are operations of the Temporal client, and so an argument, `Engine`.
pub mod Completion
pub mod Announced
use kitchen_ops.Base.{
  bytes_eq, ℕ, ◌*◌, ◌%◌, Bool, true, false, Option, none, some, ◌++◌, Bytes, ℤ, pos, negsuc, codes,
  ltb, if◌then◌else◌,
}
use kitchen_ops.Base.Decimal.{format_uint, parse_uint}
use kitchen_ops.Base.Text.{trim_space}
use kitchen_ops.Models.{EventType, DomainEvent, event_type_text}
use kitchen_ops.Runtime.{Services, Action, ◌>>=◌, ◌>>◌, pure, throw, driver, second}
use kitchen_ops.Application.Tasks.{get_task}
use kitchen_ops.Outbox.{word_mod, signed}
use kitchen_ops.Temporal.{handle_event, complete_task_by_id_activity}

pub data Workflow : Type 0 where
  allocation_workflow auto_complete_task_workflow : Workflow

abbrev pub allocation_task_queue : Bytes
allocation_task_queue = codes "kitchen-allocation-task-queue"

-- client.StartWorkflowOptions, the workflow and its argument.
pub record WorkflowStart : Type 0 where
  pub id : Bytes
  pub task_queue : Bytes
  pub workflow : Workflow
  pub event : DomainEvent

-- event.Type == models.EventTaskStarted; an event's type is compared as a text.
abbrev pub is_task_started : EventType → Bool
is_task_started type = bytes_eq (event_type_text type) (codes "TASK_STARTED")

abbrev pub workflow_of : Bool → Workflow
workflow_of true = Workflow.auto_complete_task_workflow
workflow_of false = Workflow.allocation_workflow

abbrev pub base_id : Bool → Bytes
base_id true = codes "auto-complete-event"
base_id false = codes "allocation-event"

-- What TopicToTemporalBridge.HandleEvent hands to the client at the time `now`.
unfoldable pub start_of : ℕ → DomainEvent → WorkflowStart
start_of now event = record {
  id =
      base_id (is_task_started event.type)
      ++ (codes "-" ++ (event_type_text event.type ++ (codes "-" ++ format_uint now)));
  task_queue = allocation_task_queue;
  workflow = workflow_of (is_task_started event.type);
  event = event;
}

unfoldable pub parse_task_id_payload : Bytes → Option ℕ
parse_task_id_payload payload = parse_uint (trim_space payload)

pub record AutoCompleteTaskInfo : Type 0 where
  pub task_id : ℕ
  pub estimate_secs : ℤ

-- if info.EstimateSecs < 1 { info.EstimateSecs = 1 }
abbrev pub at_least_one : ℤ → ℕ
at_least_one (pos n) = if ltb n 1 then 1 else n
at_least_one (negsuc n) = 1

-- time.Duration(info.EstimateSecs) * time.Second, in int64.
unfoldable pub estimate_duration : ℤ → ℤ
estimate_duration secs = signed (at_least_one secs * second % word_mod)

-- workflow.ExecuteActivity(...).Get and workflow.Sleep; other requests may run meanwhile.
pub record Engine (F Q : Type 0) : Type 1 where
  pub execute_activity : {A : Type 0} → Action F Q A → Action F Q A
  pub sleep : ℤ → Action F Q (Unit {0})

module _ {F Q : Type 0} (w : Services F Q) (invalid_payload : Bytes → Bytes) where
  -- `invalid_payload` is the text of the error for a payload that is no number.
  unfoldable pub info_of : Option ℕ → Bytes → Action F Q AutoCompleteTaskInfo
  info_of none payload = throw (driver (invalid_payload payload))
  info_of (some task_id) payload = do
    task ← get_task w task_id
    pure (record { task_id = task.id; estimate_secs = task.estimate_secs })

  unfoldable pub prepare_auto_complete_task_activity : DomainEvent → Action F Q AutoCompleteTaskInfo
  prepare_auto_complete_task_activity event =
      info_of (parse_task_id_payload event.payload) event.payload

  module _ (engine : Engine F Q) where
    -- AutoCompleteTaskWorkflow once the task is read.
    abbrev pub complete_later : AutoCompleteTaskInfo → Action F Q (Unit {0})
    complete_later info = do
      engine.sleep (estimate_duration info.estimate_secs)
      engine.execute_activity (complete_task_by_id_activity w info.task_id)

    unfoldable pub auto_complete_task : DomainEvent → Action F Q (Unit {0})
    auto_complete_task event = do
      info ← engine.execute_activity (prepare_auto_complete_task_activity event)
      complete_later info

    -- AllocationWorkflow and AutoCompleteTaskWorkflow.
    unfoldable pub run_workflow : Workflow → DomainEvent → Action F Q (Unit {0})
    run_workflow Workflow.allocation_workflow event = engine.execute_activity (handle_event w event)
    run_workflow Workflow.auto_complete_task_workflow event = auto_complete_task event
