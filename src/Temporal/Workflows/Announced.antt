-- ===== src/Temporal/Workflows/Announced.antt =====
-- What a start leaves for the completion workflow.
use kitchen_ops.Base.{
  ℕ, ◌≡◌, ◌<◌, refl, ap, ◌∙◌, subst, none, some, List, [], ◌∷◌, ◌++◌, find-key, arith,
}
use kitchen_ops.Base.Decimal.{u64_mod}
use kitchen_ops.Models.{Database, DomainEvent, DomainEventModel, EventType}
use kitchen_ops.Runtime.{Services, Kitchen}
use kitchen_ops.Runtime.Outcomes.{OnOk, or_throw-OnOk, on_tx_last}
use kitchen_ops.Runtime.Atomic.{AllOrNothing, transaction_atomic}
use kitchen_ops.Repository.Lifecycle.Outcomes.{started_OnOk}
use kitchen_ops.Repository.Events.{insert_domain_event}
use kitchen_ops.Application.Tasks.{task_event, start_body, start_task}
use kitchen_ops.Temporal.Workflows.{Workflow, start_of, parse_task_id_payload}
use kitchen_ops.Temporal.Workflows.Completion.{parse_task_id_payload-task_event}

module _ {F Q : Type 0} (w : Services F Q) where
  -- One row has been added to the events, and is to be published: that of an event for which the
  -- bridge starts the completion workflow, with a payload that this reads as the task's id.
  abbrev pub Announces : ℕ → List DomainEventModel → List DomainEventModel → Type 0
  Announces task_id before after =
      (row : DomainEventModel) × (event : DomainEvent) × (after ≡ before ++ row ∷ [])
      × (row.published_at ≡ none)
      × (row.next_retry_at ≡ none)
      × (row.payload ≡ w.marshal event)
      × ((at : ℕ) → (start_of at event).workflow ≡ Workflow.auto_complete_task_workflow)
      × (parse_task_id_payload event.payload ≡ some task_id)

  start_body-Announces :
      (now task_id : ℕ) (s : Kitchen F Q)
      → task_id < u64_mod
      → OnOk
          (λ _ t. Announces task_id s.db.domain_events t.db.domain_events)
          (start_body w now task_id s)
  unfolding start_body insert_domain_event start_of
  start_body-Announces now task_id s small = started_OnOk w P task_id now _ s λ task found ready.
      or_throw-OnOk P task.assigned_machine_id _ _ _ λ _ _. on_tx_last w P _ _ (
        let same = find-key (λ r. r.id) task_id s.db.tasks task found in
        (
          _,
          task_event EventType.task_started now task.id,
          refl,
          refl,
          refl,
          refl,
          λ at. refl,
          parse_task_id_payload-task_event EventType.task_started now task.id
                (omega (arith, same, small))
              ∙ ap some same,
        ))
    where
      P : Unit {0} → Kitchen F Q → Type 0
      P _ t = Announces task_id s.db.domain_events t.db.domain_events

  -- StartTask either fails and leaves the database as it was, or adds one row to the outbox, which
  -- is to be published: that of an event for which the bridge starts the completion workflow, and
  -- whose payload this workflow reads as the id of the task that was started. The id has 64 bits.
  pub start_task-Announces :
      (task_id : ℕ) (s : Kitchen F Q)
      → task_id < u64_mod
      → AllOrNothing
          (λ _ db. Announces task_id s.db.domain_events db.domain_events)
          s.db
          (start_task w task_id s)
  unfolding start_task
  start_task-Announces task_id s small =
      transaction_atomic w _ (start_body w (w.clock s.calls) task_id) s λ s' same.
        subst
          (λ (db : Database F).
            OnOk (λ _ t. Announces task_id db.domain_events t.db.domain_events)
              (start_body w (w.clock s.calls) task_id s'))
          same (start_body-Announces (w.clock s.calls) task_id s' small)
