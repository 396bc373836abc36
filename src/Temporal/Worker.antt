-- ===== src/Temporal/Worker.antt =====
-- internal/temporalx/worker.go: what a worker of the task queue offers.
use kitchen_ops.Base.{List, [], ◌∷◌, Bytes, codes}
use kitchen_ops.Temporal.Workflows.{Workflow, allocation_task_queue}

-- The worker that Run starts, by what has been registered.
pub record AllocationWorker : Type 0 where
  pub task_queue : Bytes
  pub workflows : List Workflow
  pub activities : List Bytes

abbrev pub start_allocation_worker : AllocationWorker
start_allocation_worker = record {
  task_queue = allocation_task_queue;
  workflows = Workflow.allocation_workflow ∷ Workflow.auto_complete_task_workflow ∷ [];
  activities =
      codes "RunAllocationActivity"
      ∷ codes "PrepareAutoCompleteTaskActivity"
      ∷ codes "CompleteTaskByIDActivity"
      ∷ [];
}
