-- ===== src/Api/Answers.antt =====
-- What the answers of the API say.
use kitchen_ops.Base.{
  ℕ, ◌≡◌, ◌≢◌, ◌⊎◌, inl, inr, refl, Bool-cases, Option, none, some, Option-cases, Bytes, codes,
  find?, has_key, arith,
}
use kitchen_ops.Models.{TaskModel}
use kitchen_ops.Runtime.{Services, Kitchen, Action, Result, ok, err, Error, call}
use kitchen_ops.Runtime.Atomic.{AllOrNothing}
use kitchen_ops.Repository.Lifecycle.{get_task_by_id}
use kitchen_ops.Application.Tasks.{start_task, complete_task, get_task}
use kitchen_ops.Consistency.Board.{Board, board}
use kitchen_ops.Consistency.Board.Effects.{
  Started, Completed, start_task-Started, complete_task-Completed,
}
use kitchen_ops.Api.{
  Response, write_json, task_payload, is_panic, failure, status_response, respond, with_task_id,
  parse_task_id, handle_start_task, handle_complete_task, handle_get_task,
}

-- The status is 200 and `Effect` holds, or it is not 200 and the database is as it was.
abbrev pub Answered : {F Q : Type 0} → Type 0 → Kitchen F Q → Response F × Kitchen F Q → Type 0
Answered Effect s r = ((r.0.status ≡ 200) × Effect) ⊎ ((r.0.status ≢ 200) × (r.1.db ≡ s.db))

failure-status : (F : Type 0) (e : Error) → (failure {F = F} 400 e).status ≢ 200
failure-status F e = elim (Bool-cases (is_panic e)) [
  | inl panic ↦ rw panic (λ h. omega (arith, h))
  | inr error ↦ rw error (λ h. omega (arith, h))
]

module _ {F Q : Type 0} (w : Services F Q) (s : Kitchen F Q) where
  answered :
      (P : Board F → Board F → Type 0) (text : Bytes) (r : Result (Unit {0}) × Kitchen F Q)
      → AllOrNothing (λ _ db. P (board s.db) (board db)) s.db r
      → Answered (P (board s.db) (board r.1.db)) s (respond (status_response text) r)
  answered P text (ok a, t) h = inl (refl, h)
  answered P text (err e, t) h = inr (failure-status F e, h)

  task-Answered :
      (act : ℕ → Action F Q (Unit {0})) (P : ℕ → Board F → Board F → Type 0) (text : Bytes)
      (o : Option ℕ)
      → ((task_id : ℕ)
          → AllOrNothing (λ _ db. P task_id (board s.db) (board db)) s.db (act task_id s))
      → Answered
          ((task_id : ℕ) × (o ≡ some task_id)
            × P task_id (board s.db) (
                board
                  (with_task_id w o (λ id s'. respond (status_response text) (act id s')) s).1.db))
          s
          (with_task_id w o (λ id s'. respond (status_response text) (act id s')) s)
  task-Answered act P text none h = inr ((λ e. omega (arith, e)), refl)
  task-Answered act P text (some task_id) h =
      elim (answered (P task_id) text (act task_id s) (h task_id)) [
        | inl (done, effect) ↦ inl (done, (task_id, refl, effect))
        | inr refused ↦ inr refused
      ]

  -- StartTask either answers 200, and then the id is a number, its task was assigned, and the board
  -- differs in this task's row only, which is started now; or it answers another status, and the
  -- database is as it was, whatever failed.
  pub handle_start_task-Answered :
      (param : Bytes)
      → Answered
          ((task_id : ℕ) × (parse_task_id param ≡ some task_id)
            × Started
                (w.clock s.calls)
                task_id
                (board s.db)
                (board (handle_start_task w param s).1.db))
          s
          (handle_start_task w param s)
  unfolding handle_start_task
  handle_start_task-Answered param =
      task-Answered (start_task w) (Started (w.clock s.calls)) (codes "STARTED")
        (parse_task_id param) (λ task_id. start_task-Started w task_id s)

  -- CompleteTask either answers 200, and then the id is a number, its task was started, and on the
  -- board it is now completed, each unassigned task that depends on it waits for one task less, and
  -- its order is advanced, or closed if nothing of it is left; or it answers another status, and the
  -- database is as it was, whatever failed.
  pub handle_complete_task-Answered :
      (param : Bytes)
      → Answered
          ((task_id : ℕ) × (parse_task_id param ≡ some task_id)
            × Completed
                (w.clock s.calls)
                task_id
                (board s.db)
                (board (handle_complete_task w param s).1.db))
          s
          (handle_complete_task w param s)
  unfolding handle_complete_task
  handle_complete_task-Answered param =
      task-Answered (complete_task w) (Completed (w.clock s.calls)) (codes "COMPLETED")
        (parse_task_id param) (λ task_id. complete_task-Completed w task_id s)

  -- For a number in the path GetTask answers 200 with the task's row if there is one, 404 if there is
  -- none, and 500 if the read fails; the database is as it was.
  pub handle_get_task_answers :
      (param : Bytes) (task_id : ℕ)
      → parse_task_id param ≡ some task_id
      → ((handle_get_task w param s).1.db ≡ s.db)
        × (((t : TaskModel F) × (find? (has_key (λ r. r.id) task_id) s.db.tasks ≡ some t)
              × ((handle_get_task w param s).0 ≡ write_json 200 (task_payload t)))
            ⊎ (((find? (has_key (λ r. r.id) task_id) s.db.tasks ≡ none)
                  × ((handle_get_task w param s).0.status ≡ 404))
                ⊎ ((text : Bytes) × (w.fails s.calls ≡ some text)
                    × ((handle_get_task w param s).0.status ≡ 500))))
  unfolding handle_get_task get_task get_task_by_id call
  handle_get_task_answers param task_id number = elim (Option-cases (w.fails s.calls)) [
    | inr (text, failed) ↦ rw (number, failed) (refl, inr (inr (text, refl, refl)))
    | inl answers ↦ elim (Option-cases (find? (has_key (λ r. r.id) task_id) s.db.tasks)) [
      | inl missing ↦ rw (number, answers, missing) (refl, inr (inl (refl, refl)))
      | inr (t, found) ↦ rw (number, answers, found) (refl, inl (t, refl, refl))
    ]
  ]
