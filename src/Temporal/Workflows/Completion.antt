-- ===== src/Temporal/Workflows/Completion.antt =====
-- A start's event completes its task when its time is up.
use kitchen_ops.Base.{
  ℕ, ◌*◌, ◌≡◌, ◌<◌, ◌≤◌, leb, if◌then◌else◌, ℤ, pos, negsuc, ◌∙◌, ap, none, some, Bytes, find?,
  has_key, find-key, false, arith,
}
use kitchen_ops.Base.Decimal.{
  u64_mod, format_uint, format_uint-All, parse_uint, parse_uint-format_uint,
}
use kitchen_ops.Base.Text.{is_space}
use kitchen_ops.Base.Text.Trimmed.{trim_space_solid}
use kitchen_ops.Models.{TaskModel, EventType}
use kitchen_ops.Runtime.{Services, Kitchen, Action, ok, ◌>>=◌, and_then, call, next_call}
use kitchen_ops.Repository.Lifecycle.{get_task_by_id}
use kitchen_ops.Application.Tasks.{task_event, get_task}
use kitchen_ops.Temporal.{complete_task_by_id_activity}
use kitchen_ops.Temporal.Workflows.{
  Engine, start_of, parse_task_id_payload, info_of, prepare_auto_complete_task_activity,
  estimate_duration, complete_later, auto_complete_task, run_workflow,
}

-- The payload of an event that StartTask, CompleteTask or ConfirmOrder writes about a task, read as
-- a task id by the activity of the completion workflow, is the id of that task. The id has 64 bits.
pub parse_task_id_payload-task_event :
    (type : EventType) (now id : ℕ)
    → id < u64_mod
    → parse_task_id_payload (task_event type now id).payload ≡ some id
unfolding parse_task_id_payload
parse_task_id_payload-task_event type now id small =
    ap parse_uint (
      trim_space_solid (format_uint id)
        (format_uint-All (λ c. is_space c ≡ false) id (λ d h. ground arith)))
    ∙ parse_uint-format_uint id small

-- The seconds of an estimate, or one if there is not one.
abbrev pub whole_seconds : ℤ → ℕ
whole_seconds (pos n) = if leb 1 n then n else 1
whole_seconds (negsuc n) = 1

estimate_duration-whole_seconds :
    (secs : ℤ)
    → whole_seconds secs ≤ 9223372036
    → estimate_duration secs ≡ pos (whole_seconds secs * 1000000000)
unfolding estimate_duration
estimate_duration-whole_seconds (pos n) short = ground arith
estimate_duration-whole_seconds (negsuc n) short = ground arith

module _ {F Q : Type 0} (w : Services F Q) (invalid_payload : Bytes → Bytes) where
  prepared :
      (now id : ℕ) (s : Kitchen F Q) (t : TaskModel F)
      → id < u64_mod
      → w.fails s.calls ≡ none
      → find? (has_key (λ r. r.id) id) s.db.tasks ≡ some t
      → prepare_auto_complete_task_activity w invalid_payload
          (task_event EventType.task_started now id)
          s
        ≡ (ok (record { task_id = id; estimate_secs = t.estimate_secs }), next_call s)
  unfolding prepare_auto_complete_task_activity info_of get_task get_task_by_id call
  prepared now id s t small answers found =
      rw (parse_task_id_payload-task_event EventType.task_started now id small, answers, found)
        (ap (λ i. (ok (record { task_id = i; estimate_secs = t.estimate_secs }), next_call s))
          (find-key (λ r. r.id) id s.db.tasks t found))

module _ {F Q : Type 0} (w : Services F Q) (invalid_payload : Bytes → Bytes)
    (engine : Engine F Q) where
  pub run_workflow-started :
      ((A : Type 0) (m : Action F Q A) (s : Kitchen F Q) (a : A)
        → (m s).0 ≡ ok a
        → engine.execute_activity m s ≡ m s)
      → (now at id : ℕ) (s : Kitchen F Q) (t : TaskModel F) → id < u64_mod
      → w.fails s.calls ≡ none
      → find? (has_key (λ r. r.id) id) s.db.tasks ≡ some t
      → run_workflow w invalid_payload engine
          (start_of at (task_event EventType.task_started now id)).workflow
          (start_of at (task_event EventType.task_started now id)).event
          s
        ≡ (engine.sleep (estimate_duration t.estimate_secs) >>= λ _.
              engine.execute_activity (complete_task_by_id_activity w id))
            (next_call s)
  unfolding run_workflow start_of auto_complete_task
  run_workflow-started once now at id s t small answers found =
      ap (λ r. and_then r (complete_later w invalid_payload engine))
        (once _
            (prepare_auto_complete_task_activity w invalid_payload
              (task_event EventType.task_started now id))
            s _ (ap (λ r. r.0) ran)
          ∙ ran)
    where
      ran :
          prepare_auto_complete_task_activity w invalid_payload
            (task_event EventType.task_started now id)
            s
          ≡ (ok (record { task_id = id; estimate_secs = t.estimate_secs }), next_call s)
      ran = prepared w invalid_payload now id s t small answers found

  -- Let an activity that succeeds when it is run be run once. For the event of a start, the bridge
  -- starts a workflow that reads the task, sleeps for as many seconds as its estimate has, or for one
  -- if that is less than one, and then completes this very task. The task's id has 64 bits, the sleep
  -- is at most 9223372036 seconds, as many as an int64 of nanoseconds holds, and the read does not
  -- fail.
  pub run_workflow_sleeps :
      ((A : Type 0) (m : Action F Q A) (s : Kitchen F Q) (a : A)
        → (m s).0 ≡ ok a
        → engine.execute_activity m s ≡ m s)
      → (now at id : ℕ) (s : Kitchen F Q) (t : TaskModel F) → id < u64_mod
      → whole_seconds t.estimate_secs ≤ 9223372036
      → w.fails s.calls ≡ none
      → find? (has_key (λ r. r.id) id) s.db.tasks ≡ some t
      → run_workflow w invalid_payload engine
          (start_of at (task_event EventType.task_started now id)).workflow
          (start_of at (task_event EventType.task_started now id)).event
          s
        ≡ (engine.sleep (pos (whole_seconds t.estimate_secs * 1000000000)) >>= λ _.
              engine.execute_activity (complete_task_by_id_activity w id))
            (next_call s)
  run_workflow_sleeps once now at id s t small short answers found =
      run_workflow-started once now at id s t small answers found
      ∙ ap
          (λ d.
            (engine.sleep d >>= λ _. engine.execute_activity (complete_task_by_id_activity w id))
              (next_call s))
          (estimate_duration-whole_seconds t.estimate_secs short)
