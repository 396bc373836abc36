-- ===== src/Consistency/Capacity/Runs.antt =====
-- Every request keeps the capacity invariant, whatever fails on the way.
use kitchen_ops.Base.{List}
use kitchen_ops.Runtime.{Services, Kitchen}
use kitchen_ops.Consistency.Requests.{Request, serve_all, serve_all_keeps}
use kitchen_ops.Consistency.Capacity.{WithinCapacity}
use kitchen_ops.Consistency.Capacity.Assign.{assign_task-WithinCapacity}
use kitchen_ops.Consistency.Capacity.Bodies.{
  start_body-WithinCapacity, complete_body-WithinCapacity,
}
use kitchen_ops.Consistency.Capacity.Requeue.{requeue_body-WithinCapacity}

-- Let each counter's and machine's `in_use` and each staff member's `active_tasks` be the number
-- of assigned or started tasks that hold it, and at most its capacity, and let the ids be primary
-- keys. Then so it is after any sequence of requests: allocations, starts and completions, called
-- or set off by events, with any failures of the database's and the queue's calls.
pub serve_all-WithinCapacity :
    {F Q : Type 0} (w : Services F Q) (s : Kitchen F Q) (rs : List Request)
    → WithinCapacity s.db
    → WithinCapacity (serve_all w s rs).db
serve_all-WithinCapacity w s rs v =
    serve_all_keeps w WithinCapacity (assign_task-WithinCapacity w) (requeue_body-WithinCapacity w)
      (start_body-WithinCapacity w) (complete_body-WithinCapacity w) s rs v
