-- ===== src/Tests/Board.antt =====
-- The theorems about the board at a run of the small kitchen.
use kitchen_ops.Base.{
  ℕ, ◌≡◌, refl, subst, ==_iff, true, some, [], ◌∷◌, arith, find?, has_key, ◌==◌, Bool-cases, inl,
  inr,
}
use kitchen_ops.Models.{TaskModel, TaskStatus, is_completed}
use kitchen_ops.Runtime.{Kitchen, ok, call, on_tx, transaction}
use kitchen_ops.Application.Tasks.{start_task, complete_task}
use kitchen_ops.Consistency.Requests.{starts, serve, serve_all}
use kitchen_ops.Consistency.Board.{board, Moves}
use kitchen_ops.Consistency.Board.Counts.{AreCounted, IsCounted, some_injective}
use kitchen_ops.Consistency.Board.Orders.{AreClosed}
use kitchen_ops.Consistency.Board.Runs.{serve_all-Moves, serve_all-AreCounted, serve_all-AreClosed}
use kitchen_ops.Consistency.Board.Serving.{start_then_complete, started_completes}
use kitchen_ops.Consistency.Board.Recorded.{AreRecorded, IsRecorded}
use kitchen_ops.Base.Decimal.{format_uint}
use kitchen_ops.Repository.Lifecycle.{read_task_locked, update_task_status_started}
use kitchen_ops.Repository.Events.{insert_domain_event}
use kitchen_ops.Application.Tasks.{start_body}
use kitchen_ops.Samples.{Items, calm, kitchen, tables, bake, plate}
use kitchen_ops.Tests.{shift, kitchen-WithinCapacity}

serve_all-Moves_example : Moves (board tables) (board (serve_all calm kitchen shift).db)
serve_all-Moves_example = serve_all-Moves calm kitchen shift kitchen-WithinCapacity.task_keys

tables-IsCounted :
    (k : ℕ) (t : TaskModel ℕ)
    → find? (has_key (λ r. r.id) k) tables.tasks ≡ some t
    → IsCounted (board tables) k t
tables-IsCounted k t found = elim (Bool-cases (3 == k)) [
  | inl is_bake ↦
      subst
        (λ n. find? (has_key (λ r. r.id) n) tables.tasks ≡ some t → IsCounted (board tables) n t)
        ((==_iff 3 k).0 is_bake)
        (λ f. subst (IsCounted (board tables) 3) (some_injective f) (refl, λ busy. refl)) found
  | inr other ↦ elim (Bool-cases (5 == k)) [
    | inl is_plate ↦
        subst
          (λ n. find? (has_key (λ r. r.id) n) tables.tasks ≡ some t → IsCounted (board tables) n t)
          ((==_iff 5 k).0 is_plate)
          (λ f. subst (IsCounted (board tables) 5) (some_injective f) (refl, λ busy. cc)) found
    | inr neither ↦ cc (rw (other, neither) at found)
  ]
]

pub tables-AreCounted : AreCounted (board tables)
tables-AreCounted = record {
  keyed = kitchen-WithinCapacity.task_keys;
  paired = (tt, tt);
  counted = tables-IsCounted;
}

serve_all-AreCounted_example : AreCounted (board (serve_all calm kitchen shift).db)
serve_all-AreCounted_example = serve_all-AreCounted calm kitchen shift tables-AreCounted

serve_all-AreClosed_example :
    AreClosed (serve_all calm kitchen shift).db.tasks (serve_all calm kitchen shift).db.orders
serve_all-AreClosed_example =
    serve_all-AreClosed calm kitchen shift kitchen-WithinCapacity.task_keys ((λ done. cc), tt)

abbrev pub assigned_bake : TaskModel ℕ
assigned_bake = record bake {
  status = TaskStatus.assigned;
  assigned_staff_id = some 9;
  assigned_machine_id = some 4;
}

abbrev pub after_assignment : Kitchen ℕ Items
after_assignment = record kitchen { db = record tables { tasks = assigned_bake ∷ plate ∷ [] } }

start_then_complete_example :
    ((start_task calm 3 after_assignment).0 ≡ ok tt)
    × ((complete_task calm 3 (start_task calm 3 after_assignment).1).0 ≡ ok tt)
    × ((t : TaskModel ℕ) × (find?
            (has_key (λ r. r.id) 3)
            (complete_task calm 3 (start_task calm 3 after_assignment).1).1.db.tasks
          ≡ some t)
        × (is_completed t.status ≡ true))
start_then_complete_example =
    start_then_complete calm (λ n. refl) 3 9 4 after_assignment assigned_bake refl refl refl refl

abbrev pub started_bake : TaskModel ℕ
started_bake = record assigned_bake { status = TaskStatus.started; started_at = some 100000000000 }

starts_bake :
    find? (has_key (λ r. r.id) 3) (serve_all calm after_assignment (starts 3 ∷ [])).db.tasks
    ≡ some started_bake
unfolding serve_all serve start_task start_body update_task_status_started read_task_locked
    insert_domain_event transaction call on_tx format_uint
starts_bake = refl

assignment-AreRecorded : AreRecorded (board after_assignment.db)
assignment-AreRecorded k t found = elim (Bool-cases (3 == k)) [
  | inl is_bake ↦
      subst IsRecorded (some_injective (rw is_bake at found))
        ((λ busy. ((9, refl), (4, refl))), (λ started. cc))
  | inr other ↦ elim (Bool-cases (5 == k)) [
    | inl is_plate ↦
        subst IsRecorded (some_injective (rw (other, is_plate) at found))
          ((λ busy. cc), (λ started. cc))
    | inr neither ↦ cc (rw (other, neither) at found)
  ]
]

started_completes_example :
    ((complete_task calm 3 (serve_all calm after_assignment (starts 3 ∷ []))).0 ≡ ok tt)
    × ((t : TaskModel ℕ) × (find?
            (has_key (λ r. r.id) 3)
            (complete_task calm 3 (serve_all calm after_assignment (starts 3 ∷ []))).1.db.tasks
          ≡ some t)
        × (is_completed t.status ≡ true))
started_completes_example =
    started_completes calm calm (λ n. refl) after_assignment (starts 3 ∷ []) (omega arith)
      assignment-AreRecorded 3 started_bake starts_bake refl
