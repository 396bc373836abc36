-- ===== src/Samples.antt =====
-- A small kitchen for the tests: numbers for scores, the in-memory queue, one of each resource.
use kitchen_ops.Base.{
  ℕ, ◌+◌, ◌-◌, ◌*◌, ◌/◌, none, some, List, [], ◌∷◌, true, false, pos, negsuc, codes, ltb, ◌==◌,
}
use kitchen_ops.Models.{
  TaskStatus, OrderStatus, TaskModel, CounterModel, MachineModel, StaffModel, Database,
}
use kitchen_ops.Runtime.{Float64, Services, Kitchen}
use kitchen_ops.Queue.{InMemoryItem, enqueue, pop_top_n}

-- Natural numbers in place of float64, negation dropped: only the order of values matters here.
abbrev pub numbers : Float64 ℕ
numbers = record {
  add = λ a b. a + b;
  sub = λ a b. a - b;
  mul = λ a b. a * b;
  div = λ a b. a / b;
  neg = λ a. a;
  max = λ a b. a;
  of_int = λ i. elim i [ pos n ↦ n | negsuc n ↦ 0 ];
  to_int = λ n. pos n;
  decimal = λ n k. n;
  lt = ltb;
  eq = ◌==◌;
}

abbrev pub Items : Type 0
Items = List (InMemoryItem ℕ)

-- Nothing fails, nothing is locked, and the clock advances by a second with each call.
abbrev pub calm : Services ℕ Items
calm = record {
  fails = λ n. none;
  locked = λ n id. false;
  rank = λ n id. id;
  clock = λ n. (100 + n) * 1000000000;
  float = numbers;
  numeric = numbers;
  enqueue = enqueue;
  pop_top_n = pop_top_n numbers;
  marshal = λ e. e.payload;
}

abbrev pub grill : CounterModel
grill = record { id = 1; name = codes "grill"; capacity = 2; in_use = 0; updated_at = 0 }

abbrev pub oven : MachineModel
oven = record {
  id = 4;
  name = codes "oven";
  counter_id = 1;
  machine_type = codes "oven";
  capacity = 1;
  in_use = 0;
  is_up = true;
  updated_at = 0;
}

abbrev pub cook : StaffModel ℕ
cook = record {
  id = 9;
  name = codes "cook";
  shift_start = 0;
  shift_end = 900000000000;
  max_parallel = 1;
  efficiency_multiplier = 1;
  active_tasks = 0;
  active_seconds = 0;
  on_break = false;
  created_at = 0;
}

abbrev pub bake : TaskModel ℕ
bake = record {
  id = 3;
  order_id = 1;
  description = codes "bake";
  counter_id = 1;
  machine_id = some 4;
  estimate_secs = pos 5;
  base_priority = 2;
  pending_deps = 0;
  assigned_staff_id = none;
  assigned_machine_id = none;
  status = TaskStatus.unassigned;
  assignment_version = 0;
  claimed_by = none;
  claimed_until = none;
  assigned_at = none;
  started_at = none;
  completed_at = none;
  created_at = 0;
}

-- It waits for `bake`.
abbrev pub plate : TaskModel ℕ
plate = record bake { id = 5; description = codes "plate"; pending_deps = 1 }

abbrev pub tables : Database ℕ
tables = record {
  orders =
      record {
        id = 1;
        external_order_id = codes "ord-1";
        status = OrderStatus.confirmed;
        created_at = 0;
      }
      ∷ [];
  counters = grill ∷ [];
  staff = cook ∷ [];
  staff_skills = record { staff_id = 9; counter_id = 1 } ∷ [];
  machines = oven ∷ [];
  recipe_steps = [];
  recipe_step_dependencies = [];
  tasks = bake ∷ plate ∷ [];
  task_dependencies = record { task_id = 5; depends_on_task_id = 3 } ∷ [];
  domain_events = [];
}

-- The kitchen with `bake` in the queue.
abbrev pub kitchen : Kitchen ℕ Items
kitchen = record {
  db = tables;
  queue = record { task_id = codes "3"; score = 2 } ∷ [];
  order_seq = 1;
  task_seq = 5;
  event_seq = 0;
  calls = 0;
  aborted = false;
}
