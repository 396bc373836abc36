-- ===== src/Application/Orders/Announced.antt =====
-- The ready tasks of a new order, listed, queued and announced.
use kitchen_ops.Base.{
  ℕ, ◌+◌, ◌≤◌, ◌<◌, ◌≡◌, refl, sym, ap, ◌∙◌, Bool, true, ◌&&◌, none, List, [], ◌∷◌, ◌++◌,
  append-nil, append_assoc, map, where_, sort, ltb, All, All-map, IsSorted, sort_sorted,
  where-IsSorted, ◌==◌, arith,
}
use kitchen_ops.Base.Decimal.{format_uint}
use kitchen_ops.Models.{
  Database, TaskModel, TaskDependencyModel, DomainEventModel, EventType, event_type_text,
  is_unassigned,
}
use kitchen_ops.Runtime.{Services, Kitchen}
use kitchen_ops.Runtime.Either.{OnEither, HasFailed, call-OnEither, bind-OnEither}
use kitchen_ops.Repository.Events.{insert_domain_event_no_tx}
use kitchen_ops.Application.Scores.{queue_score, enqueue}
use kitchen_ops.Application.Orders.{announce_tasks}
use kitchen_ops.Application.Orders.Created.{IsNew, AreStored}
use kitchen_ops.Application.Orders.Recalculated.{waits_for}

module _ {F : Type 0} where
  abbrev by_id : TaskModel F → TaskModel F → Bool
  by_id a b = ltb a.id b.id

  -- What ListOrderReadyTasks selects.
  abbrev pub is_ready : ℕ → TaskModel F → Bool
  is_ready order_id t =
      (t.order_id == order_id) && (is_unassigned t.status && (t.pending_deps == 0))

  -- The tasks of the order that wait for none.
  abbrev pub ready_of : List TaskDependencyModel → List (TaskModel F) → List (TaskModel F)
  ready_of deps rows = where_ (λ t. t.pending_deps == 0) (map (waits_for deps) rows)

  AreStored-IsSorted :
      (deps : List TaskDependencyModel) (order_id last : ℕ) (drafts rows : List (TaskModel F))
      → AreStored order_id last drafts rows
      → IsSorted by_id (map (waits_for deps) rows)
        × All (λ t. last < t.id) (map (waits_for deps) rows)
  AreStored-IsSorted deps order_id last [] [] h = (tt, tt)
  AreStored-IsSorted deps order_id last [] (row ∷ rows) h = absurd h
  AreStored-IsSorted deps order_id last (draft ∷ drafts) [] h = absurd h
  AreStored-IsSorted deps order_id last (draft ∷ drafts) (row ∷ rows) ((created_at, e), h) =
      let (sorted, above) = AreStored-IsSorted deps order_id (last + 1) drafts rows h in
      let id_is : row.id ≡ last + 1 = ap (λ t. t.id) e in
      (
        (All-map _ _ (map (waits_for deps) rows) (λ t l. ground arith) above, sorted),
        (omega arith, All-map _ _ (map (waits_for deps) rows) (λ t l. omega arith) above),
      )

  ready_where :
      (order_id last : ℕ) (deps : List TaskDependencyModel) (old rows : List (TaskModel F))
      → All (λ t. (t.id ≤ last) × (t.order_id < order_id)) old
      → All (IsNew order_id last) rows
      → where_ (is_ready order_id) (old ++ map (waits_for deps) rows) ≡ ready_of deps rows
  ready_where order_id last deps [] [] older new = refl
  ready_where order_id last deps [] (row ∷ rows) older new =
      let status : is_unassigned row.status ≡ true = rw new.0.2 refl in
      ground (arith, new.0.1, ready_where order_id last deps [] rows tt new.1)
  ready_where order_id last deps (t ∷ old) rows older new =
      ground (arith, older.0.1, ready_where order_id last deps old rows older.1 new)

  -- ListOrderReadyTasks of a new order.
  pub listed :
      (order_id last : ℕ) (deps : List TaskDependencyModel) (old drafts rows : List (TaskModel F))
      → All (λ t. (t.id ≤ last) × (t.order_id < order_id)) old
      → All (IsNew order_id last) rows
      → AreStored order_id last drafts rows
      → sort (λ a b. ltb a.id b.id) (where_ (is_ready order_id) (old ++ map (waits_for deps) rows))
        ≡ ready_of deps rows
  listed order_id last deps old drafts rows older new stored =
      ap (sort by_id) (ready_where order_id last deps old rows older new)
      ∙ sort_sorted by_id (ready_of deps rows) (
          where-IsSorted by_id (λ t. t.pending_deps == 0) (map (waits_for deps) rows)
            (AreStored-IsSorted deps order_id last drafts rows stored).0)

-- An event for each task in turn, that it is ready.
abbrev pub AreAnnounced : {F : Type 0} → List (TaskModel F) → List DomainEventModel → Type 0
AreAnnounced [] [] = Unit
AreAnnounced [] (e ∷ events) = ⊥
AreAnnounced (t ∷ tasks) [] = ⊥
AreAnnounced (t ∷ tasks) (e ∷ events) =
    (e.aggregate_id ≡ format_uint t.id)
    × (e.event_type ≡ event_type_text EventType.task_ready)
    × (e.published_at ≡ none)
    × AreAnnounced tasks events

abbrev pub with_events : {F : Type 0} → Database F → List DomainEventModel → Database F
with_events db events = record db { domain_events = db.domain_events ++ events }

module _ {F Q : Type 0} (w : Services F Q) where
  -- The tasks have been put in the queue in turn, each with its score.
  abbrev pub Enqueued : List (TaskModel F) → Q → Q → Type 0
  Enqueued [] before after = after ≡ before
  Enqueued (t ∷ tasks) before after =
      (n : ℕ) × Enqueued tasks
        (w.enqueue (format_uint t.id) (queue_score w.float (w.clock n) t.base_priority t.created_at)
          before)
        after

  pub record Announced (tasks : List (TaskModel F)) (s : Kitchen F Q) (ids : List ℕ)
      (t : Kitchen F Q) : Type 0 where
    pub ids_are : ids ≡ map (λ r. r.id) tasks
    pub events : (es : List DomainEventModel) × (t.db ≡ with_events s.db es) × AreAnnounced tasks es
    pub queued : Enqueued tasks s.queue t.queue
    pub same_orders : t.order_seq ≡ s.order_seq
    pub same_tasks : t.task_seq ≡ s.task_seq

module _ {F Q : Type 0} (w : Services F Q) (slack : ℕ) where
  pub announce_tasks-Announced :
      (tasks : List (TaskModel F)) (s : Kitchen F Q)
      → OnEither (HasFailed w slack) (Announced w tasks s) (announce_tasks w tasks s)
  unfolding announce_tasks enqueue insert_domain_event_no_tx
  announce_tasks-Announced [] s = record {
    ids_are = refl;
    events = (
      [],
      ap (λ es. record (s.db) { domain_events = es }) (sym (append-nil s.db.domain_events)),
      tt,
    );
    queued = refl;
    same_orders = refl;
    same_tasks = refl;
  }
  announce_tasks-Announced (row ∷ tasks) s =
      call-OnEither w slack (Announced w (row ∷ tasks) s) _ _ s (
        call-OnEither w slack (Announced w (row ∷ tasks) s) _ _ _ (
          bind-OnEither (HasFailed w slack) (Announced w tasks _) (Announced w (row ∷ tasks) s) _ _
            (announce_tasks-Announced tasks _)
            (λ ids t h. record {
              ids_are = ap (λ is. row.id ∷ is) h.ids_are;
              events = (
                _ ∷ h.events.0,
                h.events.1
                    ∙ ap (λ es. record (s.db) { domain_events = es })
                        (append_assoc s.db.domain_events _ h.events.0),
                (refl, refl, refl, h.events.2),
              );
              queued = (s.calls, h.queued);
              same_orders = h.same_orders;
              same_tasks = h.same_tasks;
            })))
