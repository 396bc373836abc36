-- ===== src/Queue/Distinct.antt =====
-- The queue in memory has each id once, and what a prefix of its listing leaves.
use kitchen_ops.Base.{
  ℕ, zero, suc, ◌≡◌, refl, subst, Bool, false, none, List, [], ◌∷◌, Bytes, bytes_eq, bytes_eq_iff,
  take, drop, All, IsSorted, any, Bool-cases, inl, inr, if◌then◌else◌,
}
use kitchen_ops.Queue.{InMemoryItem, score_of, enqueue, delete, delete_all, item_ids}
use kitchen_ops.Queue.Listing.{AreDistinct, score_of-absent, bytes_eq_sym}

module _ {F : Type 0} where
  All-enqueue :
      (P : InMemoryItem F → Type 0) (id : Bytes) (score : F) (items : List (InMemoryItem F))
      → P (record { task_id = id; score = score })
      → All P items
      → All P (enqueue id score items)
  unfolding enqueue
  All-enqueue P id score [] p h = (p, tt)
  All-enqueue P id score (i ∷ items) p h = elim (Bool-cases (bytes_eq i.task_id id)) [
    | inl hit ↦ rw hit (p, h.1)
    | inr miss ↦ rw miss (h.0, All-enqueue P id score items p h.1)
  ]

  pub enqueue-AreDistinct :
      (id : Bytes) (score : F) (items : List (InMemoryItem F))
      → AreDistinct items
      → AreDistinct (enqueue id score items)
  unfolding enqueue
  enqueue-AreDistinct id score [] d = (tt, tt)
  enqueue-AreDistinct id score (i ∷ items) d = elim (Bool-cases (bytes_eq i.task_id id)) [
    | inl hit ↦ rw hit (
      subst (λ k. All (λ j. bytes_eq j.task_id k ≡ false) items) ((bytes_eq_iff i.task_id id).0 hit)
          d.0,
      d.1,
    )
    | inr miss ↦ rw miss (
      All-enqueue (λ j. bytes_eq j.task_id i.task_id ≡ false) id score items
          (bytes_eq_sym i.task_id id miss) d.0,
      enqueue-AreDistinct id score items d.1,
    )
  ]

  All-delete :
      (P : InMemoryItem F → Type 0) (id : Bytes) (items : List (InMemoryItem F))
      → All P items
      → All P (delete id items)
  unfolding delete
  All-delete P id [] h = tt
  All-delete P id (i ∷ items) h = elim (Bool-cases (bytes_eq i.task_id id)) [
    | inl hit ↦ rw hit (All-delete P id items h.1)
    | inr miss ↦ rw miss (h.0, All-delete P id items h.1)
  ]

  delete-AreDistinct :
      (id : Bytes) (items : List (InMemoryItem F))
      → AreDistinct items
      → AreDistinct (delete id items)
  unfolding delete
  delete-AreDistinct id [] d = tt
  delete-AreDistinct id (i ∷ items) d = elim (Bool-cases (bytes_eq i.task_id id)) [
    | inl hit ↦ rw hit (delete-AreDistinct id items d.1)
    | inr miss ↦ rw miss (All-delete _ id items d.0, delete-AreDistinct id items d.1)
  ]

  pub delete_all-AreDistinct :
      (ids : List Bytes) (items : List (InMemoryItem F))
      → AreDistinct items
      → AreDistinct (delete_all ids items)
  unfolding delete_all
  delete_all-AreDistinct [] items d = d
  delete_all-AreDistinct (id ∷ ids) items d =
      delete_all-AreDistinct ids (delete id items) (delete-AreDistinct id items d)

  All-drop :
      (P : InMemoryItem F → Type 0) (n : ℕ) (items : List (InMemoryItem F))
      → All P items
      → All P (drop n items)
  All-drop P zero items h = h
  All-drop P (suc n) [] h = tt
  All-drop P (suc n) (i ∷ items) h = All-drop P n items h.1

  pub drop-AreDistinct :
      (n : ℕ) (items : List (InMemoryItem F)) → AreDistinct items → AreDistinct (drop n items)
  drop-AreDistinct zero items d = d
  drop-AreDistinct (suc n) [] d = tt
  drop-AreDistinct (suc n) (i ∷ items) d = drop-AreDistinct n items d.1

  pub drop-IsSorted :
      (before : InMemoryItem F → InMemoryItem F → Bool) (n : ℕ) (items : List (InMemoryItem F))
      → IsSorted before items
      → IsSorted before (drop n items)
  drop-IsSorted before zero items s = s
  drop-IsSorted before (suc n) [] s = tt
  drop-IsSorted before (suc n) (i ∷ items) s = drop-IsSorted before n items s.1

  -- Dropping a prefix takes away the scores of its ids.
  pub score_of-drop :
      (n : ℕ) (items : List (InMemoryItem F)) (j : Bytes)
      → AreDistinct items
      → score_of j (drop n items)
        ≡ (if any (λ id. bytes_eq id j) (item_ids (take n items)) then none else score_of j items)
  unfolding score_of
  score_of-drop zero items j d = refl
  score_of-drop (suc n) [] j d = refl
  score_of-drop (suc n) (i ∷ items) j d = elim (Bool-cases (bytes_eq i.task_id j)) [
    | inl hit ↦ rw hit (
        subst (λ k. score_of k (drop n items) ≡ none) ((bytes_eq_iff i.task_id j).0 hit)
          (score_of-absent i.task_id (drop n items)
            (All-drop (λ k. bytes_eq k.task_id i.task_id ≡ false) n items d.0)))
    | inr miss ↦ rw miss (score_of-drop n items j d.1)
  ]
