-- ===== src/Consistency/Board/Appended.antt =====
-- Rows that are appended: what is counted and found with them.
use kitchen_ops.Base.{
  ℕ, ◌+◌, ◌≤◌, ◌<◌, ◌≡◌, ◌≢◌, ◌⊎◌, inl, inr, refl, ap, subst, Bool, true, false, some, List, [],
  ◌∷◌, ◌++◌, map, count, All, All-map, All-append, IsKeyed, find?, has_key, ◌==◌, ==_iff,
  Bool-cases, arith,
}
use kitchen_ops.Models.{ArePaired, TaskModel, TaskDependencyModel, is_unassigned}
use kitchen_ops.Application.Orders.Created.{IsNew, AreStored}
use kitchen_ops.Application.Orders.Recalculated.{IsRow, waits_for}
use kitchen_ops.Consistency.Board.Counts.{is_open, some_injective}

module _ {A : Type 0} (p q : A → Bool) where
  pub count_cong : (xs : List A) → All (λ x. p x ≡ q x) xs → count p xs ≡ count q xs
  count_cong [] h = refl
  count_cong (x ∷ xs) h = ground (arith, h.0, count_cong xs h.1)

  pub count_never : (xs : List A) → All (λ x. p x ≡ false) xs → count p xs ≡ 0
  count_never [] h = refl
  count_never (x ∷ xs) h = ground (arith, h.0, count_never xs h.1)

  pub count-append : (xs ys : List A) → count p (xs ++ ys) ≡ count p xs + count p ys
  count-append [] ys = omega arith
  count-append (x ∷ xs) ys = ground (arith, count-append xs ys)

pub ArePaired-append :
    (last : ℕ) (old deps : List TaskDependencyModel)
    → ArePaired old
    → ArePaired deps
    → All (λ d. d.task_id ≤ last) old
    → All (λ d. last < d.task_id) deps
    → ArePaired (old ++ deps)
ArePaired-append last [] deps h k below above = k
ArePaired-append last (d ∷ old) deps h k below above = (
  All-append _ old deps h.0 (All-map _ _ deps (λ e l. ground (arith, below.0)) above),
  ArePaired-append last old deps h.1 k below.1 above,
)

module _ {F : Type 0} where
  pub IsKeyed-append :
      (last : ℕ) (old rows : List (TaskModel F))
      → IsKeyed (λ t. t.id) old
      → IsKeyed (λ t. t.id) rows
      → All (λ t. t.id ≤ last) old
      → All (λ t. last < t.id) rows
      → IsKeyed (λ t. t.id) (old ++ rows)
  IsKeyed-append last [] rows h k below above = k
  IsKeyed-append last (t ∷ old) rows h k below above = (
    All-append _ old rows h.0 (All-map _ _ rows (λ r l. omega (arith, l, below.0)) above),
    IsKeyed-append last old rows h.1 k below.1 above,
  )

  -- The ids of new rows differ, and are new.
  pub AreStored-IsKeyed :
      (deps : List TaskDependencyModel) (order_id last : ℕ) (drafts rows : List (TaskModel F))
      → AreStored order_id last drafts rows
      → IsKeyed (λ t. t.id) (map (waits_for deps) rows)
        × All (λ t. last < t.id) (map (waits_for deps) rows)
  AreStored-IsKeyed deps order_id last [] [] h = (tt, tt)
  AreStored-IsKeyed deps order_id last [] (row ∷ rows) h = absurd h
  AreStored-IsKeyed deps order_id last (draft ∷ drafts) [] h = absurd h
  AreStored-IsKeyed deps order_id last (draft ∷ drafts) (row ∷ rows) ((created_at, e), h) =
      let (keyed, above) = AreStored-IsKeyed deps order_id (last + 1) drafts rows h in
      let id_is : row.id ≡ last + 1 = ap (λ t. t.id) e in
      (
        (All-map _ _ (map (waits_for deps) rows) (λ t l. omega (arith, l, id_is)) above, keyed),
        (omega arith, All-map _ _ (map (waits_for deps) rows) (λ t l. omega arith) above),
      )

  pub find-append :
      (k : ℕ) (old rows : List (TaskModel F)) (t : TaskModel F)
      → find? (has_key (λ r. r.id) k) (old ++ rows) ≡ some t
      → (find? (has_key (λ r. r.id) k) old ≡ some t) ⊎ (find? (has_key (λ r. r.id) k) rows ≡ some t)
  find-append k [] rows t e = inr e
  find-append k (r ∷ old) rows t e = elim (Bool-cases (r.id == k)) [
    | inl hit ↦ inl (rw hit (rw hit at e))
    | inr miss ↦ rw miss (find-append k old rows t (rw miss at e))
  ]

  pub find-append_left :
      (k : ℕ) (old rows : List (TaskModel F))
      → All (λ t. t.id ≢ k) rows
      → find? (has_key (λ r. r.id) k) (old ++ rows) ≡ find? (has_key (λ r. r.id) k) old
  find-append_left k [] [] other = refl
  find-append_left k [] (r ∷ rows) other =
      ground (arith, other.0, find-append_left k [] rows other.1)
  find-append_left k (r ∷ old) rows other = ground (arith, find-append_left k old rows other)

  pub find-append_right :
      (k : ℕ) (old rows : List (TaskModel F))
      → All (λ t. t.id ≢ k) old
      → find? (has_key (λ r. r.id) k) (old ++ rows) ≡ find? (has_key (λ r. r.id) k) rows
  find-append_right k [] rows other = refl
  find-append_right k (r ∷ old) rows other =
      ground (arith, other.0, find-append_right k old rows other.1)

  pub found_below :
      (k last : ℕ) (old : List (TaskModel F)) (t : TaskModel F)
      → All (λ r. r.id ≤ last) old
      → find? (has_key (λ r. r.id) k) old ≡ some t
      → k ≤ last
  found_below k last [] t below e = cc
  found_below k last (r ∷ old) t below e = elim (Bool-cases (r.id == k)) [
    | inl hit ↦ ground (arith, below.0)
    | inr miss ↦ found_below k last old t below.1 (rw miss at e)
  ]

  -- A new row is found with its count, and is unassigned.
  pub find-waits_for :
      (deps : List TaskDependencyModel) (order_id last k : ℕ) (rows : List (TaskModel F))
      (t : TaskModel F)
      → All (IsNew order_id last) rows
      → find? (has_key (λ r. r.id) k) (map (waits_for deps) rows) ≡ some t
      → (t.pending_deps ≡ count (λ d. d.task_id == k) deps)
        × (is_unassigned t.status ≡ true)
        × (last < k)
  find-waits_for deps order_id last k [] t new e = cc
  find-waits_for deps order_id last k (row ∷ rows) t new e = elim (Bool-cases (row.id == k)) [
    | inl hit ↦
        let at : row.id ≡ k = (==_iff row.id k).0 hit in
        let same : waits_for deps row ≡ t = some_injective (rw hit at e) in
        subst
          (λ u.
            (u.pending_deps ≡ count (λ d. d.task_id == k) deps)
            × (is_unassigned u.status ≡ true)
            × (last < k))
          same
          (
            ap (λ i. count (λ d. d.task_id == i) deps) at,
            rw new.0.2 refl,
            omega (arith, new.0.0, at),
          )
    | inr miss ↦ find-waits_for deps order_id last k rows t new.1 (rw miss at e)
  ]

  pub is_open_new :
      (deps : List TaskDependencyModel) (order_id last k : ℕ) (rows : List (TaskModel F))
      → All (IsNew order_id last) rows
      → IsRow rows k
      → is_open (map (waits_for deps) rows) k ≡ true
  is_open_new deps order_id last k [] new there = cc
  is_open_new deps order_id last k (row ∷ rows) new there = elim (Bool-cases (row.id == k)) [
    | inl hit ↦ rw (hit, new.0.2) refl
    | inr miss ↦ rw miss (is_open_new deps order_id last k rows new.1 (rw miss at there))
  ]
