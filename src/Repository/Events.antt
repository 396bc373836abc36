-- ===== src/Repository/Events.antt =====
-- internal/repository/event_repo.go
use kitchen_ops.Base.{
  ℕ, ◌+◌, Bool, true, not, ◌&&◌, Option, none, some, List, [], ◌∷◌, ◌++◌, Bytes, if◌then◌else◌, ltb,
  leb, where_, take, sort, update_where, has_key, is_some,
}
use kitchen_ops.Models.{DomainEvent, DomainEventModel, event_type_text}
use kitchen_ops.Runtime.{Services, Kitchen, Action, call, on_tx}

abbrev pub get_or_zero : Option ℕ → ℕ
get_or_zero none = 0
get_or_zero (some t) = t

module _ {F Q : Type 0} where
  abbrev pub set_events :
      (List DomainEventModel → List DomainEventModel) → Kitchen F Q → Unit {0} × Kitchen F Q
  set_events f s = (tt, record s { db = record (s.db) { domain_events = f s.db.domain_events } })

  -- The row of a new event: its id is drawn from the sequence, its other columns are defaults.
  abbrev pub create_event :
      Services F Q → Bytes → Bytes → DomainEvent → Kitchen F Q → Unit {0} × Kitchen F Q
  create_event w aggregate_type aggregate_id event s = (
    tt,
    record s {
      event_seq = s.event_seq + 1;
      db = record (s.db) {
        domain_events =
            s.db.domain_events
            ++ record {
              id = s.event_seq + 1;
              aggregate_type = aggregate_type;
              aggregate_id = aggregate_id;
              event_type = event_type_text event.type;
              payload = w.marshal event;
              attempts = 0;
              next_retry_at = none;
              published_at = none;
              last_error = none;
              created_at = w.clock s.calls;
            }
              ∷ [];
      };
    },
  )

module _ {F Q : Type 0} (w : Services F Q) where
  unfoldable pub insert_domain_event : Bytes → Bytes → DomainEvent → Action F Q (Unit {0})
  insert_domain_event aggregate_type aggregate_id event =
      on_tx w (create_event w aggregate_type aggregate_id event)

  unfoldable pub insert_domain_event_no_tx : Bytes → Bytes → DomainEvent → Action F Q (Unit {0})
  insert_domain_event_no_tx aggregate_type aggregate_id event =
      call w (create_event w aggregate_type aggregate_id event)

-- published_at IS NULL AND (next_retry_at IS NULL OR next_retry_at <= now)
abbrev pub is_pending : ℕ → DomainEventModel → Bool
is_pending now e =
    not (is_some e.published_at)
    && (if is_some e.next_retry_at then leb (get_or_zero e.next_retry_at) now else true)

module _ {F Q : Type 0} (w : Services F Q) where
  unfoldable pub lock_pending_outbox_events : ℕ → ℕ → Action F Q (List DomainEventModel)
  lock_pending_outbox_events now limit = on_tx w λ s. (
    take (if leb limit 0 then 100 else limit) (
        sort (λ a b. ltb a.id b.id)
          (where_ (λ e. is_pending now e && not (w.locked s.calls e.id)) s.db.domain_events)),
    s,
  )

  unfoldable pub mark_outbox_published : ℕ → ℕ → Action F Q (Unit {0})
  mark_outbox_published event_id published_at = on_tx w (
      set_events (
        update_where (has_key (λ e. e.id) event_id) (λ e. record e {
          published_at = some published_at;
          last_error = none;
          next_retry_at = none;
        })))

  unfoldable pub mark_outbox_retry : ℕ → Bytes → ℕ → Action F Q (Unit {0})
  mark_outbox_retry event_id err_text next_retry_at = on_tx w (
      set_events (
        update_where (has_key (λ e. e.id) event_id) (λ e. record e {
          attempts = e.attempts + 1;
          last_error = some err_text;
          next_retry_at = some next_retry_at;
        })))
