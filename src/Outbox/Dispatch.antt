-- ===== src/Outbox/Dispatch.antt =====
-- internal/outbox/dispatcher.go: DispatchOnce.
use kitchen_ops.Base.{ℕ, ◌+◌, ◌-◌, Option, none, some, List, [], ◌∷◌, Bytes, codes, ℤ, pos, negsuc}
use kitchen_ops.Models.{DomainEvent, DomainEventModel}
use kitchen_ops.Runtime.{Services, Action, ok, ◌>>=◌, ◌>>◌, get, pure, next_call, transaction}
use kitchen_ops.Repository.Events.{
  lock_pending_outbox_events, mark_outbox_published, mark_outbox_retry,
}
use kitchen_ops.Application.Allocation.{attempt}
use kitchen_ops.Outbox.{Dispatcher, backoff}

-- t.Add(d); an instant before the epoch is read as the epoch.
abbrev pub add_duration : ℕ → ℤ → ℕ
add_duration t (pos d) = t + d
add_duration t (negsuc d) = t - (d + 1)

module _ {F Q : Type 0} (w : Services F Q) where
  -- d.publisher.Publish: the text of its error, if it fails.
  unfoldable pub publish : DomainEvent → Action F Q (Option Bytes)
  publish event s = (ok (w.fails s.calls), next_call s)

  -- MarkOutboxRetry, whose error is dropped.
  unfoldable pub postpone : DomainEventModel → Bytes → Action F Q (Unit {0})
  postpone row err_text = do
    s ← get
    attempt (
        mark_outbox_retry w row.id err_text
          (add_duration (w.clock s.calls) (backoff (row.attempts + 1))))
    pure tt

  unfoldable pub settle_publish : DomainEventModel → Option Bytes → Action F Q (Unit {0})
  settle_publish row none = do s ← get; mark_outbox_published w row.id (w.clock s.calls)
  settle_publish row (some text) = postpone row text

  unfoldable pub dispatch_row : DomainEventModel → Option DomainEvent → Action F Q (Unit {0})
  dispatch_row row none = postpone row (codes "invalid event payload")
  dispatch_row row (some event) = do failure ← publish event; settle_publish row failure

-- `unmarshal` is json.Unmarshal of a payload, none where it fails.
module _ {F Q : Type 0} (w : Services F Q) (unmarshal : Bytes → Option DomainEvent) where
  unfoldable pub dispatch_rows : List DomainEventModel → Action F Q (Unit {0})
  dispatch_rows [] = pure tt
  dispatch_rows (row ∷ rows) = do dispatch_row w row (unmarshal row.payload); dispatch_rows rows

  unfoldable pub dispatch_body : Dispatcher → ℕ → Action F Q (Unit {0})
  dispatch_body d now = do rows ← lock_pending_outbox_events w now d.batch_size; dispatch_rows rows

  unfoldable pub dispatch_once : Dispatcher → Action F Q (Unit {0})
  dispatch_once d = do s ← get; transaction w (dispatch_body d (w.clock s.calls))
