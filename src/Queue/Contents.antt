-- ===== src/Queue/Contents.antt =====
-- The queue as a map from task ids to scores.
use kitchen_ops.Base.{
  ℕ, ◌≡◌, refl, none, some, List, [], ◌∷◌, Bytes, bytes_eq, bytes_eq_iff, leb, any, Bool-cases, inl,
  inr, if◌then◌else◌, arith,
}
use kitchen_ops.Runtime.{Float64}
use kitchen_ops.Queue.{InMemoryItem, score_of, enqueue, delete, delete_all, pop_top_n}

module _ {F : Type 0} where
  -- After an enqueue the task has the new score, and every other task the score that it had.
  pub score_of-enqueue :
      (id j : Bytes) (score : F) (items : List (InMemoryItem F))
      → score_of j (enqueue id score items)
        ≡ (if bytes_eq id j then some score else score_of j items)
  unfolding score_of enqueue
  score_of-enqueue id j score [] = refl
  score_of-enqueue id j score (i ∷ items) = ground (
    arith,
    (bytes_eq_iff i.task_id id).0,
    (bytes_eq_iff i.task_id j).0,
    (bytes_eq_iff id j).0,
    (bytes_eq_iff i.task_id j).1,
    (bytes_eq_iff id j).1,
    (bytes_eq_iff i.task_id id).1,
    score_of-enqueue id j score items,
  )

  score_of-delete :
      (id j : Bytes) (items : List (InMemoryItem F))
      → score_of j (delete id items) ≡ (if bytes_eq id j then none else score_of j items)
  unfolding score_of delete
  score_of-delete id j [] = ground arith
  score_of-delete id j (i ∷ items) = ground (
    arith,
    (bytes_eq_iff i.task_id id).0,
    (bytes_eq_iff i.task_id j).0,
    (bytes_eq_iff id j).0,
    (bytes_eq_iff i.task_id j).1,
    (bytes_eq_iff id j).1,
    (bytes_eq_iff i.task_id id).1,
    score_of-delete id j items,
  )

  pub score_of-delete_all :
      (ids : List Bytes) (j : Bytes) (items : List (InMemoryItem F))
      → score_of j (delete_all ids items)
        ≡ (if any (λ id. bytes_eq id j) ids then none else score_of j items)
  unfolding delete_all
  score_of-delete_all [] j items = refl
  score_of-delete_all (id ∷ ids) j items =
      ground (arith, score_of-delete_all ids j (delete id items), score_of-delete id j items)

  -- PopTopN removes exactly the tasks that it returns, and leaves the others their scores.
  pub score_of-pop_top_n :
      (fl : Float64 F) (n : ℕ) (j : Bytes) (items : List (InMemoryItem F))
      → score_of j (pop_top_n fl n items).1
        ≡ (if any (λ id. bytes_eq id j) (pop_top_n fl n items).0 then none else score_of j items)
  unfolding pop_top_n
  score_of-pop_top_n fl n j items = elim (Bool-cases (leb n 0)) [
    | inl none_wanted ↦ rw none_wanted refl
    | inr some_wanted ↦ rw some_wanted (score_of-delete_all _ j items)
  ]
