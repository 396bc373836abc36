-- ===== src/Outbox/Progress.antt =====
-- A dispatch in which no call fails publishes its whole batch.
use kitchen_ops.Base.{
  ℕ, ◌+◌, ◌≡◌, refl, true, false, not, ◌&&◌, Option, none, some, is_some, List, Bytes, All, find?,
  has_key, where_, take, sort, ltb, leb, update_where, if◌then◌else◌,
}
use kitchen_ops.Models.{Database, DomainEvent, DomainEventModel}
use kitchen_ops.Runtime.{Services, Kitchen, Result, ok, err, next_call, on_tx}
use kitchen_ops.Repository.Events.{set_events, is_pending, mark_outbox_published}
use kitchen_ops.Outbox.{Dispatcher}
use kitchen_ops.Outbox.Dispatch.{publish, settle_publish, dispatch_row}

-- The action has succeeded, and `P` holds of the state.
abbrev pub Succeeds :
    {F Q : Type 0} → (Kitchen F Q → Type 0) → Result (Unit {0}) × Kitchen F Q → Type 0
Succeeds P (ok a, s) = P s
Succeeds P (err e, s) = ⊥

abbrev Exists : {F : Type 0} → ℕ → Database F → Type 0
Exists k db = (e : DomainEventModel) × (find? (has_key (λ r. r.id) k) db.domain_events ≡ some e)

abbrev pub Published : {F : Type 0} → ℕ → Database F → Type 0
Published k db =
    (e : DomainEventModel) × (find? (has_key (λ r. r.id) k) db.domain_events ≡ some e)
    × (is_some e.published_at ≡ true)

-- How many rows LockPendingOutboxEvents reads at most.
abbrev pub row_limit : Dispatcher → ℕ
row_limit d = if leb d.batch_size 0 then 100 else d.batch_size

-- The rows that a dispatch selects in the call of a number.
abbrev pub batch :
    {F Q : Type 0}
    → Services F Q
    → Dispatcher
    → ℕ
    → ℕ
    → List DomainEventModel
    → List DomainEventModel
batch w d now n events =
    take (row_limit d)
      (sort (λ a b. ltb a.id b.id) (where_ (λ e. is_pending now e && not (w.locked n e.id)) events))

module _ {F Q : Type 0} (w : Services F Q) (unmarshal : Bytes → Option DomainEvent)
    (quiet : (n : ℕ) → w.fails n ≡ none) where
  -- The UPDATE of MarkOutboxPublished.
  abbrev pub publish_at : ℕ → DomainEventModel → DomainEventModel
  publish_at t e = record e { published_at = some t; last_error = none; next_retry_at = none }

  abbrev pub marked : DomainEventModel → Kitchen F Q → Kitchen F Q
  marked row s =
      (set_events (update_where (has_key (λ r. r.id) row.id) (publish_at (w.clock (s.calls + 1))))
        (next_call (next_call s))).1

  pub dispatch_row_marks :
      (row : DomainEventModel) (event : DomainEvent) (s : Kitchen F Q)
      → s.aborted ≡ false
      → dispatch_row w row (some event) s ≡ (ok tt, marked row s)
  unfolding dispatch_row publish settle_publish mark_outbox_published on_tx
  dispatch_row_marks row event s live = rw (quiet s.calls, live, quiet (s.calls + 1)) refl

  -- The payload of a row can be read.
  abbrev pub IsReadable : DomainEventModel → Type 0
  IsReadable r = is_some (unmarshal r.payload) ≡ true

  module _ where
    abbrev Done : List DomainEventModel → Kitchen F Q → Kitchen F Q → Type 0
    Done rows s t =
        (t.aborted ≡ false)
        × All (λ r. Published r.id t.db) rows
        × ((k : ℕ) → Published k s.db → Published k t.db)
