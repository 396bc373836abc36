-- ===== src/Tests/Outbox.antt =====
-- A run of the dispatcher, and its theorems at concrete inputs.
use kitchen_ops.Base.{
  ℕ, ◌≡◌, refl, true, Option, none, some, [], ◌∷◌, Bytes, codes, find?, has_key, arith, map,
}
use kitchen_ops.Models.{DomainEvent, DomainEventModel, EventType}
use kitchen_ops.Runtime.{Kitchen, ok, call, on_tx, transaction}
use kitchen_ops.Repository.Events.{lock_pending_outbox_events, mark_outbox_published}
use kitchen_ops.Outbox.{Dispatcher, new_dispatcher}
use kitchen_ops.Outbox.Dispatch.{
  publish, settle_publish, dispatch_row, dispatch_rows, dispatch_body, dispatch_once,
}
use kitchen_ops.Outbox.Loop.{run}
use kitchen_ops.Outbox.Published.{run_keeps_published}
use kitchen_ops.Outbox.Batches.{unpublished}
use kitchen_ops.Outbox.Drained.{ticks, run_drains}
use kitchen_ops.Outbox.Progress.{Published}
use kitchen_ops.Samples.{Items, calm, kitchen, tables}

-- A payload that is not empty is read as that of a ready task.
abbrev read_any : Bytes → Option DomainEvent
read_any [] = none
read_any (c ∷ text) =
    some (record { type = EventType.task_ready; timestamp = 0; payload = c ∷ text })

abbrev waiting : DomainEventModel
waiting = record {
  id = 1;
  aggregate_type = codes "task";
  aggregate_id = codes "3";
  event_type = codes "TASK_READY";
  payload = codes "3";
  attempts = 0;
  next_retry_at = none;
  published_at = none;
  last_error = none;
  created_at = 0;
}

abbrev sent : DomainEventModel
sent = record waiting { id = 2; published_at = some 7 }

abbrev outbox : Kitchen ℕ Items
outbox = record kitchen { db = record tables { domain_events = waiting ∷ sent ∷ [] } }

dispatched :
    map (λ e. e.published_at) (dispatch_once calm read_any new_dispatcher outbox).1.db.domain_events
    ≡ some 103000000000 ∷ some 7 ∷ []
unfolding dispatch_once dispatch_body dispatch_rows dispatch_row settle_publish publish transaction
    call on_tx lock_pending_outbox_events mark_outbox_published new_dispatcher
dispatched = refl

run_keeps_published_example :
    find?
      (has_key (λ r. r.id) 2)
      (run calm read_any new_dispatcher (ticks 3) outbox).1.db.domain_events
    ≡ some sent
run_keeps_published_example =
    run_keeps_published calm read_any new_dispatcher 2 sent refl (ticks 3) outbox (omega arith) refl

-- Three events wait, and a dispatch reads two rows.
abbrev small : Dispatcher
small = record new_dispatcher { batch_size = 2 }

abbrev backlog : Kitchen ℕ Items
backlog = record kitchen {
  db = record tables {
    domain_events =
        record waiting { id = 5 }
        ∷ waiting
        ∷ sent
        ∷ record waiting { id = 3; next_retry_at = some 40 }
        ∷ [];
  };
}

run_drains_example :
    ((run calm read_any small (ticks 2) backlog).0 ≡ ok true)
    × (unpublished (run calm read_any small (ticks 2) backlog).1.db ≡ 0)
run_drains_example =
    run_drains calm read_any (λ n. refl) 40 (λ n. omega arith) (λ n k. refl) small 2 backlog
      (record {
        keyed = omega arith;
        due = omega arith;
        readable = (refl, (refl, (refl, (refl, tt))));
      })
      (omega arith)
