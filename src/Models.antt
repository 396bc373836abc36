-- ===== src/Models.antt =====
-- The rows of the tables: internal/models. `F` is the type of float64 values. Ids, counts and
-- capacities are natural numbers; an instant is its nanoseconds since the epoch.
use kitchen_ops.Base.{ℕ, Bool, false, ◌&&◌, ◌==◌, ◌≡◌, All, Option, List, [], ◌∷◌, Bytes, ℤ, codes}

-- internal/models/types.go
pub data TaskStatus : Type 0 where
  unassigned assigned started completed : TaskStatus

pub data OrderStatus : Type 0 where
  confirmed in_progress part_completed completed : OrderStatus

pub data EventType : Type 0 where
  task_created task_ready task_assigned task_started task_completed task_requeued : EventType
  other : Bytes → EventType

pub record DomainEvent : Type 0 where
  pub type : EventType
  pub timestamp : ℕ
  pub payload : Bytes

abbrev pub event_type_text : EventType → Bytes
event_type_text EventType.task_created = codes "TASK_CREATED"
event_type_text EventType.task_ready = codes "TASK_READY"
event_type_text EventType.task_assigned = codes "TASK_ASSIGNED"
event_type_text EventType.task_started = codes "TASK_STARTED"
event_type_text EventType.task_completed = codes "TASK_COMPLETED"
event_type_text EventType.task_requeued = codes "TASK_REQUEUED"
event_type_text (EventType.other text) = text

pub record CounterModel : Type 0 where
  pub id : ℕ
  pub name : Bytes
  pub capacity : ℕ
  pub in_use : ℕ
  pub updated_at : ℕ

pub record MachineModel : Type 0 where
  pub id : ℕ
  pub name : Bytes
  pub counter_id : ℕ
  pub machine_type : Bytes
  pub capacity : ℕ
  pub in_use : ℕ
  pub is_up : Bool
  pub updated_at : ℕ

pub record OrderModel : Type 0 where
  pub id : ℕ
  pub external_order_id : Bytes
  pub status : OrderStatus
  pub created_at : ℕ

pub record StaffSkillModel : Type 0 where
  pub staff_id : ℕ
  pub counter_id : ℕ

pub record TaskDependencyModel : Type 0 where
  pub task_id : ℕ
  pub depends_on_task_id : ℕ

pub record RecipeStepDependencyModel : Type 0 where
  pub item_key : Bytes
  pub step_order : ℕ
  pub depends_on_step_order : ℕ

pub record DomainEventModel : Type 0 where
  pub id : ℕ
  pub aggregate_type : Bytes
  pub aggregate_id : Bytes
  pub event_type : Bytes
  pub payload : Bytes
  pub attempts : ℕ
  pub next_retry_at : Option ℕ
  pub published_at : Option ℕ
  pub last_error : Option Bytes
  pub created_at : ℕ

pub record StaffModel (F : Type 0) : Type 0 where
  pub id : ℕ
  pub name : Bytes
  pub shift_start : ℕ
  pub shift_end : ℕ
  pub max_parallel : ℕ
  pub efficiency_multiplier : F
  pub active_tasks : ℕ
  pub active_seconds : ℕ
  pub on_break : Bool
  pub created_at : ℕ

pub record RecipeStepModel (F : Type 0) : Type 0 where
  pub id : ℕ
  pub item_key : Bytes
  pub step_order : ℕ
  pub description : Bytes
  pub counter_id : ℕ
  pub machine_id : Option ℕ
  pub estimate_secs : ℤ
  pub base_priority : F
  pub is_active : Bool
  pub created_at : ℕ

pub record TaskModel (F : Type 0) : Type 0 where
  pub id : ℕ
  pub order_id : ℕ
  pub description : Bytes
  pub counter_id : ℕ
  pub machine_id : Option ℕ
  pub estimate_secs : ℤ
  pub base_priority : F
  pub pending_deps : ℕ
  pub assigned_staff_id : Option ℕ
  pub assigned_machine_id : Option ℕ
  pub status : TaskStatus
  pub assignment_version : ℕ
  pub claimed_by : Option Bytes
  pub claimed_until : Option ℕ
  pub assigned_at : Option ℕ
  pub started_at : Option ℕ
  pub completed_at : Option ℕ
  pub created_at : ℕ

-- The tables of db/schema.sql.
pub record Database (F : Type 0) : Type 0 where
  pub orders : List OrderModel
  pub counters : List CounterModel
  pub staff : List (StaffModel F)
  pub staff_skills : List StaffSkillModel
  pub machines : List MachineModel
  pub recipe_steps : List (RecipeStepModel F)
  pub recipe_step_dependencies : List RecipeStepDependencyModel
  pub tasks : List (TaskModel F)
  pub task_dependencies : List TaskDependencyModel
  pub domain_events : List DomainEventModel

-- The primary key of task_dependencies.
abbrev pub ArePaired : List TaskDependencyModel → Type 0
ArePaired [] = Unit
ArePaired (d ∷ deps) =
    All (λ e. ((e.depends_on_task_id == d.depends_on_task_id) && (e.task_id == d.task_id)) ≡ false)
      deps
    × ArePaired deps

-- `status = ?` on a task row.
abbrev pub is_unassigned : TaskStatus → Bool
is_unassigned TaskStatus.unassigned = Bool.true
is_unassigned _ = Bool.false

abbrev pub is_assigned : TaskStatus → Bool
is_assigned TaskStatus.assigned = Bool.true
is_assigned _ = Bool.false

abbrev pub is_started : TaskStatus → Bool
is_started TaskStatus.started = Bool.true
is_started _ = Bool.false

abbrev pub is_completed : TaskStatus → Bool
is_completed TaskStatus.completed = Bool.true
is_completed _ = Bool.false

-- `status = ?` on an order row.
abbrev pub order_is_confirmed : OrderStatus → Bool
order_is_confirmed OrderStatus.confirmed = Bool.true
order_is_confirmed _ = Bool.false

abbrev pub order_is_in_progress : OrderStatus → Bool
order_is_in_progress OrderStatus.in_progress = Bool.true
order_is_in_progress _ = Bool.false

abbrev pub order_is_completed : OrderStatus → Bool
order_is_completed OrderStatus.completed = Bool.true
order_is_completed _ = Bool.false
