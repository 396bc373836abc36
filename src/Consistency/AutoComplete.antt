-- ===== src/Consistency/AutoComplete.antt =====
-- A task that is started gets completed by its workflow.
use kitchen_ops.Base.{
  ℕ, ◌≡◌, ◌<◌, ◌⊎◌, inl, inr, refl, sym, subst, true, none, some, List, Bytes, ℤ, IsKeyed, find?,
  has_key, arith,
}
use kitchen_ops.Base.Decimal.{u64_mod}
use kitchen_ops.Models.{TaskModel, EventType, is_started, is_completed}
use kitchen_ops.Runtime.{Services, Kitchen, Action, Result, ok, err, next_call}
use kitchen_ops.Application.Tasks.{task_event, complete_task}
use kitchen_ops.Temporal.{forgive, complete_task_by_id_activity}
use kitchen_ops.Temporal.Repeated.{complete_task_by_id_activity_again}
use kitchen_ops.Temporal.Workflows.{Engine, start_of, estimate_duration, run_workflow}
use kitchen_ops.Temporal.Workflows.Completion.{run_workflow-started}
use kitchen_ops.Consistency.Requests.{Request, serve_all}
use kitchen_ops.Consistency.Lifecycle.{
  Reach, here, next, assigns, starts, completes, requeues, unblocks,
}
use kitchen_ops.Consistency.Lifecycle.Runs.{serve_all-Reach}
use kitchen_ops.Consistency.Board.{board}
use kitchen_ops.Consistency.Board.Recorded.{AreRecorded}
use kitchen_ops.Consistency.Board.Serving.{started_completes}

abbrev IsUnderway : {F : Type 0} → TaskModel F → Type 0
IsUnderway t = (is_started t.status ≡ true) ⊎ (is_completed t.status ≡ true)

-- A started task is completed, or stays started.
Reach-IsUnderway :
    {F : Type 0} {t u : TaskModel F} → Reach t u → is_started t.status ≡ true → IsUnderway u
Reach-IsUnderway here h = inl h
Reach-IsUnderway (next r (assigns _ _ _ free _ e)) h = elim (Reach-IsUnderway r h) [
  | inl started ↦ absurd (ground arith)
  | inr done ↦ absurd (ground arith)
]
Reach-IsUnderway (next r (starts _ ready e)) h = elim (Reach-IsUnderway r h) [
  | inl started ↦ absurd (ground arith)
  | inr done ↦ absurd (ground arith)
]
Reach-IsUnderway (next r (completes _ ready e)) h = inr (rw e refl)
Reach-IsUnderway (next r (requeues ready e)) h = elim (Reach-IsUnderway r h) [
  | inl started ↦ absurd (ground arith)
  | inr done ↦ absurd (ground arith)
]
Reach-IsUnderway (next r (unblocks free e)) h = elim (Reach-IsUnderway r h) [
  | inl started ↦ absurd (ground arith)
  | inr done ↦ absurd (ground arith)
]

module _ {F Q : Type 0} where
  -- The action has succeeded, and the task is completed after it.
  abbrev pub Completes : ℕ → Result (Unit {0}) × Kitchen F Q → Type 0
  Completes id r =
      (r.0 ≡ ok tt)
      × (t : TaskModel F) × (find? (has_key (λ x. x.id) id) r.1.db.tasks ≡ some t)
      × (is_completed t.status ≡ true)

module _ {F Q : Type 0} (meanwhile w : Services F Q) (quiet : (n : ℕ) → w.fails n ≡ none) where
  forgiven_ok :
      (id : ℕ) (s : Kitchen F Q)
      → Completes id (complete_task w id s)
      → Completes id (complete_task_by_id_activity w id s)
  unfolding complete_task_by_id_activity forgive
  forgiven_ok id s h = go (complete_task w id s) h
    where
      go : (r : Result (Unit {0}) × Kitchen F Q) → Completes id r → Completes id (forgive w r.0 r.1)
      go (ok a, t) h' = (refl, h'.1, h'.2, h'.3)
      go (err e, t) h' = cc (h'.0)

  activity-Completes :
      (s : Kitchen F Q) (rs : List Request) (id : ℕ) (t : TaskModel F)
      → IsKeyed (λ x. x.id) s.db.tasks
      → AreRecorded (board s.db)
      → find? (has_key (λ x. x.id) id) s.db.tasks ≡ some t
      → is_started t.status ≡ true
      → Completes id (complete_task_by_id_activity w id (serve_all meanwhile s rs))
  activity-Completes s rs id t keyed recorded found started =
      let (u, now, reach) = serve_all-Reach meanwhile s rs keyed id t found in
      elim (Reach-IsUnderway reach started) [
        | inl active ↦
            let (done, (v, there, completed)) =
              started_completes meanwhile w quiet s rs keyed recorded id u now active in
            forgiven_ok id (serve_all meanwhile s rs) (done, v, there, completed)
        | inr completed ↦
            let again =
              complete_task_by_id_activity_again w quiet (serve_all meanwhile s rs) id u now
                (ground arith) in
            (
              again.0,
              u,
              subst (λ db. find? (has_key (λ x. x.id) id) db.tasks ≡ some u) (sym again.1) now,
              completed,
            )
      ]

  -- Let an activity that succeeds when it is run be run once, and let the workflow's sleep be any
  -- sequence of requests, with any failures of their calls. Let each task that is assigned or
  -- started have its records, and task ids be a primary key. Then the workflow that the bridge
  -- starts for the start of a task succeeds, and the task is completed after it: by the workflow,
  -- or by a request in the meantime. The workflow's own calls do not fail, and the task's id has 64
  -- bits.
  pub run_workflow-Completes :
      (invalid_payload : Bytes → Bytes) (engine : Engine F Q)
      → ((A : Type 0) (m : Action F Q A) (s : Kitchen F Q) (a : A)
          → (m s).0 ≡ ok a
          → engine.execute_activity m s ≡ m s)
      → ((d : ℤ) (s : Kitchen F Q)
          → (rs : List Request) × (engine.sleep d s ≡ (ok tt, serve_all meanwhile s rs)))
      → (now at id : ℕ) (s : Kitchen F Q) (t : TaskModel F) → id < u64_mod
      → IsKeyed (λ x. x.id) s.db.tasks
      → AreRecorded (board s.db)
      → find? (has_key (λ x. x.id) id) s.db.tasks ≡ some t
      → is_started t.status ≡ true
      → Completes id (
          run_workflow w invalid_payload engine
            (start_of at (task_event EventType.task_started now id)).workflow
            (start_of at (task_event EventType.task_started now id)).event
            s)
  run_workflow-Completes invalid_payload engine once asleep now at id s t small keyed recorded found
        started =
      let (rs, slept) = asleep (estimate_duration t.estimate_secs) (next_call s) in
      let done = activity-Completes (next_call s) rs id t keyed recorded found started in
      rw
        (
          run_workflow-started w invalid_payload engine once now at id s t small (quiet s.calls)
              found,
          slept,
          once _ (complete_task_by_id_activity w id) (serve_all meanwhile (next_call s) rs) tt
              done.0,
        )
        done
