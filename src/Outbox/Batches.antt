-- ===== src/Outbox/Batches.antt =====
-- How many rows a dispatch publishes, when no call fails.
use kitchen_ops.Base.{
  if◌then◌else◌, ℕ, ◌+◌, ◌≤◌, ◌≡◌, ◌≢◌, refl, ap, ◌∙◌, min, length-take, length-sort, length-where,
  Bool, true, false, not, ◌&&◌, Option, none, some, is_some, List, [], ◌∷◌, Bytes, All, All-sort,
  All-take, All-where, All-where_self, All-zip, subst, All-found, IsKeyed, sort-IsKeyed,
  where-IsKeyed, take-IsKeyed, update_where-IsKeyed, count-update, find?, has_key, where_, length,
  count, update_where, find-update_ne, arith, Option-cases, inl, inr,
}
use kitchen_ops.Models.{Database, DomainEvent, DomainEventModel}
use kitchen_ops.Runtime.{
  Services, Kitchen, Result, ok, err, next_call, call, on_tx, transaction, finish,
}
use kitchen_ops.Repository.Events.{is_pending, get_or_zero, lock_pending_outbox_events}
use kitchen_ops.Outbox.{Dispatcher}
use kitchen_ops.Outbox.Dispatch.{dispatch_rows, dispatch_body, dispatch_once}
use kitchen_ops.Outbox.Progress.{Succeeds, row_limit, batch, marked, publish_at, dispatch_row_marks}

abbrev pub is_unpublished : DomainEventModel → Bool
is_unpublished e = not (is_some e.published_at)

abbrev pub unpublished : {F : Type 0} → Database F → ℕ
unpublished db = count is_unpublished db.domain_events

-- Ids are a primary key, no row waits for a time after t, and the payload of every row can be read.
pub record AreDue {F : Type 0} (unmarshal : Bytes → Option DomainEvent) (t : ℕ) (db : Database F)
    : Type 0 where
  pub keyed : IsKeyed (λ e. e.id) db.domain_events
  pub due : All (λ e. get_or_zero e.next_retry_at ≤ t) db.domain_events
  pub readable : All (λ e. is_some (unmarshal e.payload) ≡ true) db.domain_events

-- Rows that are in the outbox as they were read, and wait to be published.
abbrev AreWaiting :
    {F : Type 0} → (Bytes → Option DomainEvent) → List DomainEventModel → Database F → Type 0
AreWaiting unmarshal rows db =
    All
      (λ r.
        (find? (has_key (λ e. e.id) r.id) db.domain_events ≡ some r)
        × (is_unpublished r ≡ true)
        × (is_some (unmarshal r.payload) ≡ true))
      rows

module _ {F Q : Type 0} (w : Services F Q) (unmarshal : Bytes → Option DomainEvent)
    (quiet : (n : ℕ) → w.fails n ≡ none) where
  due_after :
      (t k now : ℕ) (events : List DomainEventModel)
      → All (λ e. get_or_zero e.next_retry_at ≤ t) events
      → All
          (λ e. get_or_zero e.next_retry_at ≤ t)
          (update_where (has_key (λ e. e.id) k) (publish_at w unmarshal quiet now) events)
  due_after t k now [] h = tt
  due_after t k now (e ∷ events) h = (ground arith, due_after t k now events h.1)

  readable_after :
      (k now : ℕ) (events : List DomainEventModel)
      → All (λ e. is_some (unmarshal e.payload) ≡ true) events
      → All
          (λ e. is_some (unmarshal e.payload) ≡ true)
          (update_where (has_key (λ e. e.id) k) (publish_at w unmarshal quiet now) events)
  readable_after k now [] h = tt
  readable_after k now (e ∷ events) h =
      (kept (has_key (λ e. e.id) k e) h.0, readable_after k now events h.1)
    where
      kept :
          (b : Bool)
          → is_some (unmarshal e.payload) ≡ true
          → is_some (unmarshal (if b then publish_at w unmarshal quiet now e else e).payload) ≡ true
      kept true h = h
      kept false h = h

  marked-AreDue :
      (t : ℕ) (row : DomainEventModel) (s : Kitchen F Q)
      → AreDue unmarshal t s.db
      → AreDue unmarshal t (marked w unmarshal quiet row s).db
  marked-AreDue t row s h = record {
    keyed = update_where-IsKeyed (λ e. e.id) _ _ s.db.domain_events (λ r. refl) h.keyed;
    due = due_after t row.id _ s.db.domain_events h.due;
    readable = readable_after row.id _ s.db.domain_events h.readable;
  }

  -- Publishing a row leaves one row fewer to publish.
  marked-unpublished :
      (t : ℕ) (row : DomainEventModel) (s : Kitchen F Q)
      → AreDue unmarshal t s.db
      → find? (has_key (λ e. e.id) row.id) s.db.domain_events ≡ some row
      → is_unpublished row ≡ true
      → unpublished (marked w unmarshal quiet row s).db + 1 ≡ unpublished s.db
  marked-unpublished t row s h found waits = ground (
    arith,
    count-update (λ e. e.id) is_unpublished row.id
        (publish_at w unmarshal quiet (w.clock (s.calls + 1))) s.db.domain_events row h.keyed found,
  )

  marked-AreWaiting :
      (row : DomainEventModel) (rows : List DomainEventModel) (s : Kitchen F Q)
      → All (λ r. r.id ≢ row.id) rows
      → AreWaiting unmarshal rows s.db
      → AreWaiting unmarshal rows (marked w unmarshal quiet row s).db
  marked-AreWaiting row [] s others waiting = tt
  marked-AreWaiting row (r ∷ rows) s others waiting = (
    (
      find-update_ne (λ e. e.id) r.id row.id _ s.db.domain_events (λ e. refl) others.0
          ∙ waiting.0.0,
      waiting.0.1,
      waiting.0.2,
    ),
    marked-AreWaiting row rows s others.1 waiting.1,
  )

  module _ (t : ℕ) where
    abbrev Fewer : List DomainEventModel → Kitchen F Q → Kitchen F Q → Type 0
    Fewer rows s s' =
        (s'.aborted ≡ false)
        × AreDue unmarshal t s'.db
        × (unpublished s'.db + length rows ≡ unpublished s.db)

    dispatch_rows-Fewer :
        (rows : List DomainEventModel) (s : Kitchen F Q)
        → s.aborted ≡ false
        → AreDue unmarshal t s.db
        → IsKeyed (λ r. r.id) rows
        → AreWaiting unmarshal rows s.db
        → Succeeds (Fewer rows s) (dispatch_rows w unmarshal rows s)
    unfolding dispatch_rows
    dispatch_rows-Fewer [] s live h keyed waiting = (live, h, omega arith)
    dispatch_rows-Fewer (row ∷ rows) s live h keyed waiting =
        elim (Option-cases (unmarshal row.payload)) [
          | inl bad ↦ absurd (ground (arith, waiting.0.2))
          | inr (event, good) ↦
              rw (good, dispatch_row_marks w unmarshal quiet row event s live)
                (after _ (
                  dispatch_rows-Fewer rows (marked w unmarshal quiet row s) live
                    (marked-AreDue t row s h) keyed.1
                    (marked-AreWaiting row rows s keyed.0 waiting.1)))
        ]
      where
        after :
            (r : Result (Unit {0}) × Kitchen F Q)
            → Succeeds (Fewer rows (marked w unmarshal quiet row s)) r
            → Succeeds (Fewer (row ∷ rows) s) r
        after (ok a, s') (live', h', fewer) =
            (live', h', omega (arith, marked-unpublished t row s h waiting.0.0 waiting.0.1))
        after (err x, s') h' = h'

    -- After a dispatch that begins at s, with a batch of so many rows.
    abbrev pub After : ℕ → Kitchen F Q → Result (Unit {0}) × Kitchen F Q → Type 0
    After taken s r =
        (r.0 ≡ ok tt) × AreDue unmarshal t r.1.db × (unpublished r.1.db + taken ≡ unpublished s.db)

    committed :
        (rows : List DomainEventModel) (before s : Kitchen F Q)
        (r : Result (Unit {0}) × Kitchen F Q)
        → Succeeds (Fewer rows s) r
        → After (length rows) s (finish w before r)
    committed rows before s (ok tt, s') (live, h, fewer) =
        rw (live, quiet s'.calls) (refl, h, fewer)
    committed rows before s (err e, s') h = absurd h

    module _ (passed : (n : ℕ) → t ≤ w.clock n) (free : (n k : ℕ) → w.locked n k ≡ false) where
      all_selected :
          (now n : ℕ) (events : List DomainEventModel)
          → t ≤ now
          → All (λ e. get_or_zero e.next_retry_at ≤ t) events
          → count (λ e. is_pending now e && not (w.locked n e.id)) events
            ≡ count is_unpublished events
      all_selected now n [] late h = refl
      all_selected now n (e ∷ events) late h =
          ground (arith, free n e.id, all_selected now n events late h.1)

      batch-AreWaiting :
          (d : Dispatcher) (now n : ℕ) (s : Kitchen F Q)
          → AreDue unmarshal t s.db
          → AreWaiting unmarshal (batch w d now n s.db.domain_events) s.db
      batch-AreWaiting d now n s h = All-take Waits (row_limit d) _ (All-sort Waits _ _ selected)
        where
          Waits : DomainEventModel → Type 0
          Waits r =
              (find? (has_key (λ e. e.id) r.id) s.db.domain_events ≡ some r)
              × (is_unpublished r ≡ true)
              × (is_some (unmarshal r.payload) ≡ true)

          Held : DomainEventModel → Type 0
          Held r =
              (find? (has_key (λ e. e.id) r.id) s.db.domain_events ≡ some r)
              × (is_some (unmarshal r.payload) ≡ true)

          selected :
              All Waits (where_ (λ e. is_pending now e && not (w.locked n e.id)) s.db.domain_events)
          selected =
              All-zip (λ r. (is_pending now r && not (w.locked n r.id)) ≡ true) Held Waits _
                (λ r pending here. (here.0, ground arith, here.1))
                (All-where_self _ s.db.domain_events)
                (All-where Held _ s.db.domain_events (
                  All-zip _ _ Held s.db.domain_events (λ r here reads. (here, reads))
                    (All-found (λ e. e.id) s.db.domain_events h.keyed) h.readable))

      length-batch :
          (d : Dispatcher) (n : ℕ) (s : Kitchen F Q)
          → AreDue unmarshal t s.db
          → length (batch w d (w.clock s.calls) n s.db.domain_events)
            ≡ min (row_limit d) (unpublished s.db)
      length-batch d n s h =
          length-take (row_limit d) _
          ∙ ap (min (row_limit d)) (
              length-sort _ _
              ∙ length-where _ s.db.domain_events
              ∙ all_selected (w.clock s.calls) n s.db.domain_events (passed s.calls) h.due)

      -- A dispatch publishes as many rows as it may read.
      pub dispatch_once-After :
          (d : Dispatcher) (s : Kitchen F Q)
          → AreDue unmarshal t s.db
          → After (min (row_limit d) (unpublished s.db)) s (dispatch_once w unmarshal d s)
      unfolding dispatch_once transaction call dispatch_body lock_pending_outbox_events on_tx
      dispatch_once-After d s h =
          let rows = batch w d (w.clock s.calls) (s.calls + 1 + 1) s.db.domain_events in
          let begun : Kitchen F Q = record (next_call s) { aborted = false } in
          subst (λ n. After n s (dispatch_once w unmarshal d s))
            (length-batch d (s.calls + 1 + 1) s h)
            (rw (quiet s.calls, quiet (s.calls + 1))
              (committed rows (next_call s) (next_call begun) _ (
                dispatch_rows-Fewer rows (next_call begun) refl h
                  (take-IsKeyed (λ e. e.id) (row_limit d) _
                    (sort-IsKeyed (λ e. e.id) _ _ (where-IsKeyed (λ e. e.id) _ _ h.keyed)))
                  (batch-AreWaiting d _ _ s h))))
