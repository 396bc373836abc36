-- ===== src/Tests/Allocation.antt =====
-- An allocation of the small kitchen.
use kitchen_ops.Base.{◌≡◌, refl, [], ◌∷◌, arith}
use kitchen_ops.Base.Decimal.{format_uint}
use kitchen_ops.Runtime.{ok}
use kitchen_ops.Queue
use kitchen_ops.Queue.{delete, delete_all}
use kitchen_ops.Application.Allocation.{allocate_once}
use kitchen_ops.Application.Allocation.Success.{CanBeAssigned}
use kitchen_ops.Application.Allocation.Progress.{allocate_once_assigns}
use kitchen_ops.Samples.{calm, kitchen, tables, bake, grill, oven}
use kitchen_ops.Tests.{kitchen-WithinCapacity}

bake-CanBeAssigned : CanBeAssigned calm 100000000000 3 bake tables
bake-CanBeAssigned = record {
  keyed = kitchen-WithinCapacity.task_keys;
  waits = λ n. refl;
  counter = grill;
  at_counter = refl;
  has_room = refl;
  machine_id = 4;
  needs = refl;
  machine = oven;
  is_free = λ n. refl;
  staffed = λ n e. cc;
}

pops_bake : (calm.pop_top_n 20 kitchen.queue).0 ≡ format_uint 3 ∷ []
unfolding format_uint Queue.pop_top_n
pops_bake = refl

allocate_once_assigns_example : (allocate_once calm kitchen).0 ≡ ok 3
allocate_once_assigns_example =
    allocate_once_assigns calm (λ n. refl) 3 [] bake kitchen (omega arith) (λ e. omega arith)
      bake-CanBeAssigned (λ n. refl) pops_bake
