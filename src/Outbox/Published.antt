-- ===== src/Outbox/Published.antt =====
-- A published event is left alone, and a batch is published when no call fails.
use kitchen_ops.Base.{
  ℕ, ◌≡◌, ◌≢◌, refl, sym, ◌∙◌, subst, Bool, true, false, ◌&&◌, Option, none, some, is_some, List,
  [], ◌∷◌, Bytes, All, All-zip, All-sort, All-take, All-where, All-where_self, All-found, IsKeyed,
  find?, has_key, where_, update_where, update_where-IsKeyed, find-update_ne, arith,
}
use kitchen_ops.Models.{Database, DomainEvent, DomainEventModel}
use kitchen_ops.Runtime.{Services, Kitchen, Result, ok, err, next_call, answer_tx, on_tx}
use kitchen_ops.Runtime.Outcomes.{OnOk, Preserves, Keeps, on_tx-OnOk, bind-Keeps, transaction_keeps}
use kitchen_ops.Repository.Events.{
  set_events, is_pending, lock_pending_outbox_events, mark_outbox_published, mark_outbox_retry,
}
use kitchen_ops.Outbox.{Dispatcher}
use kitchen_ops.Outbox.Loop.{Signal, cancelled, tick, run}
use kitchen_ops.Outbox.Dispatch.{
  publish, postpone, settle_publish, dispatch_row, dispatch_rows, dispatch_body, dispatch_once,
}

some_injective : {A : Type 0} {a b : A} → some a ≡ some b → a ≡ b
some_injective e = cc

module _ {F Q : Type 0} (w : Services F Q) (unmarshal : Bytes → Option DomainEvent) (k : ℕ)
    (e : DomainEventModel) where
  abbrev Kept : Database F → Type 0
  Kept db =
      IsKeyed (λ r. r.id) db.domain_events
      × (find? (has_key (λ r. r.id) k) db.domain_events ≡ some e)

  mark_kept :
      (j : ℕ) (f : DomainEventModel → DomainEventModel) (events : List DomainEventModel)
      → ((r : DomainEventModel) → (f r).id ≡ r.id)
      → j ≢ k
      → IsKeyed (λ r. r.id) events × (find? (has_key (λ r. r.id) k) events ≡ some e)
      → IsKeyed (λ r. r.id) (update_where (has_key (λ r. r.id) j) f events)
        × (find? (has_key (λ r. r.id) k) (update_where (has_key (λ r. r.id) j) f events) ≡ some e)
  mark_kept j f events same ne (keyed, found) = (
    update_where-IsKeyed (λ r. r.id) _ f events same keyed,
    find-update_ne (λ r. r.id) k j f events same (λ h. ne (sym h)) ∙ found,
  )

  mark-Keeps :
      (j : ℕ) (f : DomainEventModel → DomainEventModel)
      → ((r : DomainEventModel) → (f r).id ≡ r.id)
      → j ≢ k
      → Keeps {F = F} {Q = Q} Kept (on_tx w (set_events (update_where (has_key (λ r. r.id) j) f)))
  unfolding on_tx
  mark-Keeps j f same ne s h = go s.aborted (w.fails s.calls)
    where
      go :
          (aborted : Bool) (failure : Option Bytes)
          → Kept
              (answer_tx aborted failure
                (set_events (update_where (has_key (λ r. r.id) j) f))
                (next_call s)).1.db
      go true failure = h
      go false none = mark_kept j f s.db.domain_events same ne h
      go false (some text) = h

  dispatch_row-Keeps :
      (row : DomainEventModel) (event : Option DomainEvent)
      → row.id ≢ k
      → Keeps {F = F} {Q = Q} Kept (dispatch_row w row event)
  unfolding dispatch_row postpone mark_outbox_retry mark_outbox_published publish settle_publish
  dispatch_row-Keeps row none ne s h = mark-Keeps row.id _ (λ r. refl) ne s h
  dispatch_row-Keeps row (some event) ne s h = settled (w.fails s.calls)
    where
      settled : (failure : Option Bytes) → Kept (settle_publish w row failure (next_call s)).1.db
      settled none = mark-Keeps row.id _ (λ r. refl) ne (next_call s) h
      settled (some text) = mark-Keeps row.id _ (λ r. refl) ne (next_call s) h

  dispatch_rows-Keeps :
      (rows : List DomainEventModel)
      → All (λ r. r.id ≢ k) rows
      → Keeps {F = F} {Q = Q} Kept (dispatch_rows w unmarshal rows)
  unfolding dispatch_rows
  dispatch_rows-Keeps [] ne = λ s h. h
  dispatch_rows-Keeps (row ∷ rows) ne =
      bind-Keeps Kept (dispatch_row w row (unmarshal row.payload)) _
        (dispatch_row-Keeps row (unmarshal row.payload) ne.0) (λ _. dispatch_rows-Keeps rows ne.1)

  pending_others :
      (now : ℕ) (free : DomainEventModel → Bool) (events : List DomainEventModel)
      → is_some e.published_at ≡ true
      → IsKeyed (λ r. r.id) events
      → find? (has_key (λ r. r.id) k) events ≡ some e
      → All (λ r. r.id ≢ k) (where_ (λ r. is_pending now r && free r) events)
  pending_others now free events published keyed found =
      All-zip (λ r. (is_pending now r && free r) ≡ true)
        (λ r. find? (has_key (λ r. r.id) r.id) events ≡ some r) (λ r. r.id ≢ k) _
        (λ r pending here same. absurd (other r pending here same))
        (All-where_self (λ r. is_pending now r && free r) events)
        (All-where _ (λ r. is_pending now r && free r) events (All-found (λ r. r.id) events keyed))
    where
      other :
          (r : DomainEventModel)
          → (is_pending now r && free r) ≡ true
          → find? (has_key (λ r. r.id) r.id) events ≡ some r
          → r.id ≡ k
          → ⊥
      other r pending here same =
          let e-r : e ≡ r =
            some_injective
              (sym found ∙ subst (λ j. find? (has_key (λ r. r.id) j) events ≡ some r) same here) in
          ground (arith, subst (λ r'. is_some r'.published_at ≡ true) e-r published)

  dispatch_body-Preserves :
      (d : Dispatcher) (now : ℕ)
      → is_some e.published_at ≡ true
      → Preserves {F = F} {Q = Q} Kept (dispatch_body w unmarshal d now)
  unfolding dispatch_body lock_pending_outbox_events
  dispatch_body-Preserves d now published s h =
      on_tx-OnOk w (λ _ t. Kept t.db) _ (dispatch_rows w unmarshal) s
        (succeeded _ (
          dispatch_rows-Keeps _
            (All-take (λ r. r.id ≢ k) _ _
              (All-sort (λ r. r.id ≢ k) _ _
                (pending_others now _ s.db.domain_events published h.0 h.1)))
            (next_call s) h))
    where
      succeeded : (r : Result (Unit {0}) × Kitchen F Q) → Kept r.1.db → OnOk (λ _ t. Kept t.db) r
      succeeded (ok a, t) kept = kept
      succeeded (err x, t) kept = tt

module _ {F Q : Type 0} (w : Services F Q) (unmarshal : Bytes → Option DomainEvent) (d : Dispatcher)
    (k : ℕ) (e : DomainEventModel) (published : is_some e.published_at ≡ true) where
  dispatch_once-Kept :
      (s : Kitchen F Q)
      → Kept w unmarshal k e s.db
      → Kept w unmarshal k e (dispatch_once w unmarshal d s).1.db
  unfolding dispatch_once
  dispatch_once-Kept s h =
      transaction_keeps w (Kept w unmarshal k e) (dispatch_body w unmarshal d (w.clock s.calls)) s h
        (dispatch_body-Preserves w unmarshal k e d (w.clock s.calls) published)

  run-Kept :
      (signals : List Signal) (s : Kitchen F Q)
      → Kept w unmarshal k e s.db
      → Kept w unmarshal k e (run w unmarshal d signals s).1.db
  unfolding run
  run-Kept [] s h = h
  run-Kept (cancelled ∷ signals) s h = h
  run-Kept (tick ∷ signals) s h =
      run-Kept signals (dispatch_once w unmarshal d s).1 (dispatch_once-Kept s h)

  -- Where event ids are a primary key, a dispatch leaves the row of an event that is published as
  -- it is, whatever calls fail.
  pub dispatch_once_keeps_published :
      (s : Kitchen F Q)
      → IsKeyed (λ r. r.id) s.db.domain_events
      → find? (has_key (λ r. r.id) k) s.db.domain_events ≡ some e
      → find? (has_key (λ r. r.id) k) (dispatch_once w unmarshal d s).1.db.domain_events ≡ some e
  dispatch_once_keeps_published s keyed found = (dispatch_once-Kept s (keyed, found)).1

  -- Where event ids are a primary key, Run leaves the row of an event that is published as it is,
  -- through any number of dispatches and whatever calls fail: it is not published again.
  pub run_keeps_published :
      (signals : List Signal) (s : Kitchen F Q)
      → IsKeyed (λ r. r.id) s.db.domain_events
      → find? (has_key (λ r. r.id) k) s.db.domain_events ≡ some e
      → find? (has_key (λ r. r.id) k) (run w unmarshal d signals s).1.db.domain_events ≡ some e
  run_keeps_published signals s keyed found = (run-Kept signals s (keyed, found)).1
