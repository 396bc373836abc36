-- ===== src/Tests/Redis.antt =====
-- A server that does as documented: a sorted list.
use kitchen_ops.Base.{
  subst, Bool, ℕ, ◌≡◌, refl, ◌∙◌, length, List, [], ◌∷◌, codes, map, take, drop, sort, IsSorted,
  sort-IsSorted,
}
use kitchen_ops.Queue
use kitchen_ops.Queue.{InMemoryItem, less}
use kitchen_ops.Queue.Order.{less_is, less-asym, less_trans}
use kitchen_ops.Queue.Contents.{score_of-enqueue}
use kitchen_ops.Queue.Listing.{AreDistinct, sort-AreDistinct, sort-score_of}
use kitchen_ops.Queue.Distinct.{enqueue-AreDistinct, drop-AreDistinct, drop-IsSorted}
use kitchen_ops.Queue.Redis
use kitchen_ops.Queue.Redis.{SortedSets, Member, text, RedisReadyQueue}
use kitchen_ops.Queue.Redis.Agreement.{
  Documented, QueueCall, enqueues, pops, popped_ids, popped_ids_agree,
}
use kitchen_ops.Samples.{numbers, Items}
use kitchen_ops.Tests.{numbers-IsTotal}

-- The one set of the server, in order and with each member once.
abbrev Listing : Type 0
Listing = (items : Items) × IsSorted (less numbers) items × AreDistinct items

abbrev sorted : (items : Items) → AreDistinct items → Listing
sorted items d = (
  sort (less numbers) items,
  sort-IsSorted (less numbers) (less-asym numbers numbers-IsTotal)
      (less_trans numbers numbers-IsTotal) items,
  sort-AreDistinct numbers items d,
)

abbrev server : SortedSets ℕ Listing
server = record {
  zadd =
      λ key score id z. sorted (Queue.enqueue id score z.0) (enqueue-AreDistinct id score z.0 z.2);
  zpopmin = λ key n z. (
    map (λ i. (Member.text i.task_id, i.score)) (take n z.0),
    (drop n z.0, drop-IsSorted (less numbers) n z.0 z.1, drop-AreDistinct n z.0 z.2),
  );
  zcard = λ key z. length z.0;
}

server-Documented : Documented numbers server (λ key z. z.0)
server-Documented = record {
  in_order = λ key z.
      subst (λ (r : InMemoryItem ℕ → InMemoryItem ℕ → Bool). IsSorted r z.0)
        (less_is numbers numbers-IsTotal) z.1;
  once = λ key z. z.2;
  zadd_sets = λ key score id z j.
      sort-score_of numbers (Queue.enqueue id score z.0) j (enqueue-AreDistinct id score z.0 z.2)
      ∙ score_of-enqueue id j score z.0;
  zpopmin_returns = λ key n z. refl;
  zpopmin_leaves = λ key n z. refl;
}

abbrev calls : List (QueueCall ℕ)
calls =
    enqueues (codes "8") 5
    ∷ enqueues (codes "12") 2
    ∷ enqueues (codes "11") 2
    ∷ pops 2
    ∷ enqueues (codes "8") 1
    ∷ pops 2
    ∷ []

abbrev tasks_pending : RedisReadyQueue
tasks_pending = record { key = codes "tasks:pending" }

popped_ids_agree_example :
    popped_ids
      (Redis.enqueue server tasks_pending)
      (Redis.pop_top_n server tasks_pending)
      ([], tt, tt)
      calls
    ≡ popped_ids Queue.enqueue (Queue.pop_top_n numbers) [] calls
popped_ids_agree_example =
    popped_ids_agree numbers numbers-IsTotal server (λ key z. z.0) server-Documented tasks_pending
      calls ([], tt, tt) refl
