-- ===== src/Queue/Redis/Agreement.antt =====
-- The queue in Redis and the queue in memory return the same ids.
use kitchen_ops.Base.{
  subst, Bool, ℕ, zero, suc, ◌≡◌, refl, sym, ap, ◌∙◌, false, none, some, List, [], ◌∷◌, map, Bytes,
  bytes_eq, take, drop, sort, leb, IsSorted, sort-IsSorted, any, if◌then◌else◌, arith,
}
use kitchen_ops.Runtime.{Float64}
use kitchen_ops.Queue
use kitchen_ops.Queue.{InMemoryItem, score_of, less, item_ids, delete_all}
use kitchen_ops.Queue.Order.{IsTotal, precedes, less_is, less-asym, less_trans}
use kitchen_ops.Queue.Contents.{score_of-enqueue, score_of-delete_all}
use kitchen_ops.Queue.Listing.{AreDistinct, sort-AreDistinct, sort-score_of, listing_unique}
use kitchen_ops.Queue.Distinct.{
  enqueue-AreDistinct, delete_all-AreDistinct, drop-AreDistinct, drop-IsSorted, score_of-drop,
}
use kitchen_ops.Queue.Redis
use kitchen_ops.Queue.Redis.{Member, text, SortedSets, RedisReadyQueue, member_ids}

-- What the documentation of the commands says, by ZRANGE key 0 -1 WITHSCORES, the listing of a set:
-- members are listed once, by score and then by text; ZADD sets the score of one member; ZPOPMIN
-- takes the first n of the listing and returns them as texts.
pub record Documented {F Z : Type 0} (fl : Float64 F) (redis : SortedSets F Z)
    (zrange : Bytes → Z → List (InMemoryItem F)) : Type 0 where
  pub in_order : (key : Bytes) (z : Z) → IsSorted (precedes fl) (zrange key z)
  pub once : (key : Bytes) (z : Z) → AreDistinct (zrange key z)
  pub zadd_sets :
      (key : Bytes) (score : F) (id : Bytes) (z : Z) (j : Bytes)
      → score_of j (zrange key (redis.zadd key score id z))
        ≡ (if bytes_eq id j then some score else score_of j (zrange key z))
  pub zpopmin_returns :
      (key : Bytes) (n : ℕ) (z : Z)
      → (redis.zpopmin key n z).0
        ≡ map (λ i. (Member.text i.task_id, i.score)) (take n (zrange key z))
  pub zpopmin_leaves :
      (key : Bytes) (n : ℕ) (z : Z) → zrange key (redis.zpopmin key n z).1 ≡ drop n (zrange key z)

-- A call of the queue.
pub data QueueCall (F : Type 0) : Type 0 where
  enqueues : Bytes → F → QueueCall F
  pops : ℕ → QueueCall F

-- The ids that each pop of a sequence of calls returns.
abbrev pub popped_ids :
    {F S : Type 0}
    → (Bytes → F → S → S)
    → (ℕ → S → List Bytes × S)
    → S
    → List (QueueCall F)
    → List (List Bytes)
popped_ids enqueue pop_top_n s [] = []
popped_ids enqueue pop_top_n s (enqueues id score ∷ calls) =
    popped_ids enqueue pop_top_n (enqueue id score s) calls
popped_ids enqueue pop_top_n s (pops n ∷ calls) =
    (pop_top_n n s).0 ∷ popped_ids enqueue pop_top_n (pop_top_n n s).1 calls

texts :
    {F : Type 0}
    → (items : List (InMemoryItem F))
    → member_ids (map (λ i. (Member.text i.task_id, i.score)) items) ≡ item_ids items
unfolding member_ids
texts [] = refl
texts (i ∷ items) = ap (λ ids. i.task_id ∷ ids) (texts items)

module _ {F Z : Type 0} (fl : Float64 F) (total : IsTotal fl) (redis : SortedSets F Z)
    (zrange : Bytes → Z → List (InMemoryItem F)) (documented : Documented fl redis zrange)
    (q : RedisReadyQueue) where
  -- The set's listing is that of the items in memory.
  abbrev Agree : List (InMemoryItem F) → Z → Type 0
  Agree items z = AreDistinct items × (zrange q.key z ≡ sort (less fl) items)

  ordered : (items : List (InMemoryItem F)) → IsSorted (less fl) (sort (less fl) items)
  ordered items = sort-IsSorted (less fl) (less-asym fl total) (less_trans fl total) items

  enqueue-Agree :
      (id : Bytes) (score : F) (items : List (InMemoryItem F)) (z : Z)
      → Agree items z
      → Agree (Queue.enqueue id score items) (Redis.enqueue redis q id score z)
  unfolding Redis.enqueue
  enqueue-Agree id score items z (d, same) = (
    enqueue-AreDistinct id score items d,
    listing_unique fl total _ _
        (subst
          (λ (r : InMemoryItem F → InMemoryItem F → Bool).
            IsSorted r (zrange q.key (Redis.enqueue redis q id score z)))
          (sym (less_is fl total)) (documented.in_order q.key _))
        (ordered (Queue.enqueue id score items)) (documented.once q.key _)
        (sort-AreDistinct fl _ (enqueue-AreDistinct id score items d))
        λ j.
          documented.zadd_sets q.key score id z j
          ∙ (ap (λ o. if bytes_eq id j then some score else o)
                (ap (score_of j) same ∙ sort-score_of fl items j d)
              ∙ (sym (score_of-enqueue id j score items)
                  ∙ sym (
                      sort-score_of fl (Queue.enqueue id score items) j
                        (enqueue-AreDistinct id score items d)))),
  )

  pop-Agree :
      (n : ℕ) (items : List (InMemoryItem F)) (z : Z)
      → Agree items z
      → ((Redis.pop_top_n redis q n z).0 ≡ (Queue.pop_top_n fl n items).0)
        × Agree (Queue.pop_top_n fl n items).1 (Redis.pop_top_n redis q n z).1
  unfolding Redis.pop_top_n Queue.pop_top_n
  pop-Agree zero items z h = (refl, h)
  pop-Agree (suc n) items z (d, same) = rw positive (
    ap member_ids (documented.zpopmin_returns q.key (suc n) z)
        ∙ (texts (take (suc n) (zrange q.key z)) ∙ ap (λ l. item_ids (take (suc n) l)) same),
    (
      delete_all-AreDistinct out items d,
      documented.zpopmin_leaves q.key (suc n) z
          ∙ (ap (drop (suc n)) same
              ∙ listing_unique fl total (drop (suc n) listing) (sort (less fl) rest)
                  (drop-IsSorted (less fl) (suc n) listing (ordered items)) (ordered rest)
                  (drop-AreDistinct (suc n) listing (sort-AreDistinct fl items d))
                  (sort-AreDistinct fl rest (delete_all-AreDistinct out items d)) left),
    ),
  )
    where
      positive : leb (suc n) 0 ≡ false
      positive = ground arith

      listing : List (InMemoryItem F)
      listing = sort (less fl) items

      out : List Bytes
      out = item_ids (take (suc n) listing)

      rest : List (InMemoryItem F)
      rest = delete_all out items

      left : (j : Bytes) → score_of j (drop (suc n) listing) ≡ score_of j (sort (less fl) rest)
      left j =
          score_of-drop (suc n) listing j (sort-AreDistinct fl items d)
          ∙ (ap (λ o. if any (λ id. bytes_eq id j) out then none else o)
                (sort-score_of fl items j d)
              ∙ (sym (score_of-delete_all out j items)
                  ∙ sym (sort-score_of fl rest j (delete_all-AreDistinct out items d))))

  popped_ids-Agree :
      (calls : List (QueueCall F)) (items : List (InMemoryItem F)) (z : Z)
      → Agree items z
      → popped_ids (Redis.enqueue redis q) (Redis.pop_top_n redis q) z calls
        ≡ popped_ids Queue.enqueue (Queue.pop_top_n fl) items calls
  popped_ids-Agree [] items z h = refl
  popped_ids-Agree (enqueues id score ∷ calls) items z h =
      popped_ids-Agree calls _ _ (enqueue-Agree id score items z h)
  popped_ids-Agree (pops n ∷ calls) items z h =
      let (same_ids, h') = pop-Agree n items z h in
      rw same_ids
        (ap (λ later. (Queue.pop_top_n fl n items).0 ∷ later) (popped_ids-Agree calls _ _ h'))

  -- For a server that does as documented and scores that are numbers, the queue in Redis, from an
  -- empty set, returns the same ids in the same order as the queue in memory does, from the start
  -- and through any sequence of enqueues and pops.
  pub popped_ids_agree :
      (calls : List (QueueCall F)) (z : Z)
      → zrange q.key z ≡ []
      → popped_ids (Redis.enqueue redis q) (Redis.pop_top_n redis q) z calls
        ≡ popped_ids Queue.enqueue (Queue.pop_top_n fl) [] calls
  popped_ids_agree calls z empty = popped_ids-Agree calls [] z (tt, empty)
