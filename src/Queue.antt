-- ===== src/Queue.antt =====
-- internal/queue/inmemory_queue.go: the ready queue in memory. The lock makes each operation one
-- step. The map is an association list with each key once.
pub mod Order
pub mod Contents
pub mod Listing
pub mod Distinct
pub mod Redis
use kitchen_ops.Base.{
  ℕ, Bool, true, false, Option, none, some, List, [], ◌∷◌, map, Bytes, bytes_eq, bytes_lt, leb,
  take, sort, length, if◌then◌else◌,
}
use kitchen_ops.Runtime.{Float64}

pub record InMemoryItem (F : Type 0) : Type 0 where
  pub task_id : Bytes
  pub score : F

module _ {F : Type 0} where
  unfoldable pub score_of : Bytes → List (InMemoryItem F) → Option F
  score_of id [] = none
  score_of id (i ∷ items) =
      let rest = score_of id items in if bytes_eq i.task_id id then some i.score else rest

  -- q.items[taskID] = score
  unfoldable pub enqueue : Bytes → F → List (InMemoryItem F) → List (InMemoryItem F)
  enqueue id score [] = record { task_id = id; score = score } ∷ []
  enqueue id score (i ∷ items) =
      let rest = enqueue id score items in
      if bytes_eq i.task_id id then record { task_id = id; score = score } ∷ items else i ∷ rest

  -- delete(q.items, id)
  unfoldable pub delete : Bytes → List (InMemoryItem F) → List (InMemoryItem F)
  delete id [] = []
  delete id (i ∷ items) =
      let rest = delete id items in if bytes_eq i.task_id id then rest else i ∷ rest

  unfoldable pub delete_all : List Bytes → List (InMemoryItem F) → List (InMemoryItem F)
  delete_all [] items = items
  delete_all (id ∷ ids) items = delete_all ids (delete id items)

  -- The order of sort.Slice: by score, and by task id where the scores are equal.
  abbrev pub less : Float64 F → InMemoryItem F → InMemoryItem F → Bool
  less fl a b =
      if fl.eq a.score b.score then bytes_lt a.task_id b.task_id else fl.lt a.score b.score

  abbrev pub item_ids : List (InMemoryItem F) → List Bytes
  item_ids items = map (λ i. i.task_id) items

  unfoldable pub pop_top_n :
      Float64 F → ℕ → List (InMemoryItem F) → List Bytes × List (InMemoryItem F)
  pop_top_n fl n items =
      let out = item_ids (take n (sort (less fl) items)) in
      if leb n 0 then ([], items) else (out, delete_all out items)
