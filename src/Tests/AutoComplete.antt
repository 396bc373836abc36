-- ===== src/Tests/AutoComplete.antt =====
-- A task that is started, and its workflow.
use kitchen_ops.Base.{ℕ, refl, subst, [], ◌∷◌, Bytes, codes, ◌==◌, Bool-cases, inl, inr, arith}
use kitchen_ops.Models.{EventType}
use kitchen_ops.Runtime.{Kitchen, ok}
use kitchen_ops.Application.Tasks.{task_event}
use kitchen_ops.Temporal.Workflows.{Engine, start_of, run_workflow}
use kitchen_ops.Consistency.Requests.{allocates, starts, serve_all}
use kitchen_ops.Consistency.Board.{board}
use kitchen_ops.Consistency.Board.Counts.{some_injective}
use kitchen_ops.Consistency.Board.Recorded.{AreRecorded, IsRecorded}
use kitchen_ops.Consistency.AutoComplete.{Completes, run_workflow-Completes}
use kitchen_ops.Samples.{Items, calm, kitchen, tables, plate}
use kitchen_ops.Tests.Board.{started_bake}

abbrev baking : Kitchen ℕ Items
baking = record kitchen { db = record tables { tasks = started_bake ∷ plate ∷ [] } }

baking-AreRecorded : AreRecorded (board baking.db)
baking-AreRecorded k t found = elim (Bool-cases (3 == k)) [
  | inl is_bake ↦
      subst IsRecorded (some_injective (rw is_bake at found))
        ((λ busy. ((9, refl), (4, refl))), (λ started. (100000000000, refl)))
  | inr other ↦ elim (Bool-cases (5 == k)) [
    | inl is_plate ↦
        subst IsRecorded (some_injective (rw (other, is_plate) at found))
          ((λ busy. cc), (λ started. cc))
    | inr neither ↦ cc (rw (other, neither) at found)
  ]
]

-- While the workflow sleeps, an allocation runs, and a start that is refused.
abbrev busy : Engine ℕ Items
busy = record {
  execute_activity = λ m. m;
  sleep = λ d s. (ok tt, serve_all calm s (allocates ∷ starts 5 ∷ []));
}

abbrev unreadable : Bytes → Bytes
unreadable payload = codes "invalid task payload"

run_workflow-Completes_example : Completes 3 (
    run_workflow calm unreadable busy
      (start_of 8 (task_event EventType.task_started 7 3)).workflow
      (start_of 8 (task_event EventType.task_started 7 3)).event
      baking)
run_workflow-Completes_example =
    run_workflow-Completes calm calm (λ n. refl) unreadable busy (λ A m s a h. refl)
      (λ d s. (allocates ∷ starts 5 ∷ [], refl)) 7 8 3 baking started_bake (omega arith)
      (omega arith) baking-AreRecorded refl refl
