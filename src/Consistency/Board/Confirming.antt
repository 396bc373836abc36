-- ===== src/Consistency/Board/Confirming.antt =====
-- ConfirmOrder keeps the board in order.
use kitchen_ops.Application.Orders.{Draft}
use kitchen_ops.Application.Orders.Links.{IsDrafted}
use kitchen_ops.Application.Orders.Placed.{Placed}
use kitchen_ops.Base.{
  Bytes, ℕ, ◌+◌, ◌≤◌, refl, sym, ap, subst, List, [], ◌∷◌, map, length, All, All-map, All-append,
  ◌==◌, Bool-cases, inl, inr, arith,
}
use kitchen_ops.Models.{TaskModel, TaskDependencyModel, Database}
use kitchen_ops.Runtime.{Services, Kitchen, Result, ok, err}
use kitchen_ops.Runtime.Outcomes.{OnOk}
use kitchen_ops.Application.Orders.{ConfirmOrderRequest, confirm_order}
use kitchen_ops.Application.Orders.Created.{AreStored, AreStored-IsNew}
use kitchen_ops.Application.Orders.Links.{add_items_links}
use kitchen_ops.Application.Orders.Recalculated.{IsRow, waits_for}
use kitchen_ops.Application.Orders.Placed.{WithinSequences}
use kitchen_ops.Application.Orders.Confirmed.{Settled, Confirms, confirm_order-Settled}
use kitchen_ops.Consistency.Board.{board}
use kitchen_ops.Consistency.Board.Counts.{AreCounted}
use kitchen_ops.Consistency.Board.Placing.{with_rows-AreCounted}

module _ {F : Type 0} where
  AreStored-below :
      (deps : List TaskDependencyModel) (order_id last top : ℕ) (drafts rows : List (TaskModel F))
      → last + length drafts ≤ top
      → AreStored order_id last drafts rows
      → All (λ r. (r.id ≤ top) × (r.order_id ≤ order_id)) (map (waits_for deps) rows)
  AreStored-below deps order_id last top [] [] l h = tt
  AreStored-below deps order_id last top [] (row ∷ rows) l h = absurd h
  AreStored-below deps order_id last top (draft ∷ drafts) [] l h = absurd h
  AreStored-below deps order_id last top (draft ∷ drafts) (row ∷ rows) l ((created_at, e), h) = (
    (omega (arith, ap (λ r. r.id) e), omega (arith, ap (λ r. r.order_id) e)),
    AreStored-below deps order_id (last + 1) top drafts rows (omega arith) h,
  )

  IsRow-below :
      (deps : List TaskDependencyModel) (order_id top k : ℕ) (rows : List (TaskModel F))
      → All (λ r. (r.id ≤ top) × (r.order_id ≤ order_id)) (map (waits_for deps) rows)
      → IsRow rows k
      → k ≤ top
  IsRow-below deps order_id top k [] below there = cc
  IsRow-below deps order_id top k (row ∷ rows) below there = elim (Bool-cases (row.id == k)) [
    | inl hit ↦ ground (arith, below.0.0)
    | inr miss ↦ IsRow-below deps order_id top k rows below.1 (rw miss at there)
  ]

module _ {F Q : Type 0} (w : Services F Q) where
  module _ (req : ConfirmOrderRequest) (s : Kitchen F Q) (fresh : WithinSequences s)
      (counted : AreCounted (board s.db)) where
    placed_counts :
        (name : Bytes) (draft : Draft F) (result : ℕ × List ℕ) (t : Kitchen F Q)
        → All IsDrafted draft.task_rows
        → Placed w name draft s result t
        → AreCounted (board t.db) × WithinSequences t
    placed_counts name draft result t drafted h = (
      subst (λ (db : Database F). AreCounted (board db)) (sym h.database)
          (with_rows-AreCounted result.0 s.task_seq (board s.db) draft.task_rows h.rows h.deps
            counted h.stored
            (AreStored-IsNew result.0 s.task_seq s.task_seq draft.task_rows h.rows (omega arith)
              (All-map _ _ draft.task_rows (λ r d. d.1) drafted) h.stored)
            h.within h.paired (All-map _ _ s.db.tasks (λ r l. l.0) fresh.tasks) fresh.dependencies
            _),
      record {
        tasks =
            subst
              (λ (db : Database F).
                All (λ r. (r.id ≤ t.task_seq) × (r.order_id ≤ t.order_seq)) db.tasks)
              (sym h.database)
              (All-append _ s.db.tasks (map (waits_for h.deps) h.rows)
                (All-map _ _ s.db.tasks
                  (λ r l. (omega (arith, l.0, h.tasks_drawn), omega (arith, l.1, h.order_drawn)))
                  fresh.tasks)
                (All-map _ _ (map (waits_for h.deps) h.rows)
                  (λ r l. (l.0, omega (arith, l.1, h.order_drawn, h.order_id))) below));
        dependencies =
            subst
              (λ (db : Database F).
                All (λ d. (d.task_id ≤ t.task_seq) × (d.depends_on_task_id ≤ t.task_seq))
                  db.task_dependencies)
              (sym h.database)
              (All-append _ s.db.task_dependencies h.deps
                (All-map _ _ s.db.task_dependencies
                  (λ d l. (omega (arith, l.0, h.tasks_drawn), omega (arith, l.1, h.tasks_drawn)))
                  fresh.dependencies)
                (All-map _ _ h.deps
                  (λ d g. (
                    IsRow-below h.deps result.0 t.task_seq d.task_id h.rows below g.0,
                    IsRow-below h.deps result.0 t.task_seq d.depends_on_task_id h.rows below g.1,
                  ))
                  h.within));
      },
    )
      where
        below :
            All (λ r. (r.id ≤ t.task_seq) × (r.order_id ≤ result.0)) (map (waits_for h.deps) h.rows)
        below =
            AreStored-below h.deps result.0 s.task_seq t.task_seq draft.task_rows h.rows
              (omega (arith, h.tasks_drawn)) h.stored

    Confirms-AreCounted :
        (result : ℕ × List ℕ) (t : Kitchen F Q)
        → Confirms w req s result t
        → AreCounted (board t.db) × WithinSequences t
    Confirms-AreCounted result t c =
        placed_counts _ c.draft result t
          (add_items_links c.steps c.deps c.caps req.items c.draft c.draft.task_rows c.drafted
            refl).0
          c.placed

    -- Where pending_deps counts the open dependencies, and no row has an id that the sequences have
    -- not given, so it is after a ConfirmOrder that returns no error.
    pub confirm_order-AreCounted :
        OnOk (λ _ t. AreCounted (board t.db) × WithinSequences t) (confirm_order w req s)
    confirm_order-AreCounted = settled (confirm_order w req s) (confirm_order-Settled w req s fresh)
      where
        settled :
            (r : Result (ℕ × List ℕ) × Kitchen F Q)
            → Settled w (Confirms w req s) s r
            → OnOk (λ _ t. AreCounted (board t.db) × WithinSequences t) r
        settled (ok result, t) h = Confirms-AreCounted result t h
        settled (err e, t) h = tt
