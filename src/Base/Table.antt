-- ===== src/Base/Table.antt =====
-- Tables with a numeric key: SQL's `WHERE id = ?` and `UPDATE ... WHERE id = ?`.
use Prim.Native.Nat.{ℕ, zero, suc, ◌+◌}
use mathlib.Core.Path.{◌≡◌, refl, sym}
use mathlib.Core.Logic.{◌≢◌, inl, inr}
use mathlib.Core.Bool.{Bool, true}
use mathlib.Core.Option.{Option, none, some}
use mathlib.Core.List.{List, [], ◌∷◌}
use native.Mathlib.Omega.{arith}
use kitchen_ops.Base.Tests.{◌==◌, Bool-cases, if◌then◌else◌}
use kitchen_ops.Base.Lists.{
  count, All, All-zip, All-sort, All-where, All-take, All-insert_sorted, insert_sorted, sort,
  where_, take,
}

module _ {ℓ} {A : Type ℓ} where
  -- UPDATE: the rows that pass the test are set anew.
  abbrev pub update_where : (A → Bool) → (A → A) → List A → List A
  update_where p f [] = []
  update_where p f (r ∷ rs) = (if p r then f r else r) ∷ update_where p f rs

  -- The first row that passes a test.
  abbrev pub find? : (A → Bool) → List A → Option A
  find? p [] = none
  find? p (r ∷ rs) = let rest = find? p rs in if p r then some r else rest

module _ {ℓ} {A : Type ℓ} (key : A → ℕ) where
  abbrev pub has_key : ℕ → A → Bool
  has_key k r = key r == k

  -- The key is a primary key.
  abbrev pub IsKeyed : List A → Type 0
  IsKeyed [] = Unit
  IsKeyed (r ∷ rs) = All (λ s. key s ≢ key r) rs × IsKeyed rs

module _ {ℓ} {A : Type ℓ} (key : A → ℕ) where
  update-absent :
      (k : ℕ) (f : A → A) (rs : List A)
      → All (λ s. key s ≢ k) rs
      → update_where (has_key key k) f rs ≡ rs
  update-absent k f [] h = refl
  update-absent k f (r ∷ rs) h = ground (arith, update-absent k f rs h.1)

  -- A count after one row has changed.
  pub count-update :
      (p : A → Bool) (k : ℕ) (f : A → A) (rs : List A) (r : A)
      → IsKeyed key rs
      → find? (has_key key k) rs ≡ some r
      → count p (update_where (has_key key k) f rs) + (if p r then 1 else 0)
        ≡ count p rs + (if p (f r) then 1 else 0)
  count-update p k f [] r u e = cc
  count-update p k f (x ∷ rs) r u e =
      ground (arith, update-absent (key x) f rs u.0, count-update p k f rs r u.1)

  pub find-key : (k : ℕ) (rs : List A) (r : A) → find? (has_key key k) rs ≡ some r → key r ≡ k
  find-key k [] r e = cc
  find-key k (x ∷ rs) r e = ground (arith, find-key k rs r)

  -- A read after an update of one row.
  pub find-update_self :
      (k : ℕ) (f : A → A) (rs : List A) (r : A)
      → ((r : A) → key (f r) ≡ key r)
      → find? (has_key key k) rs ≡ some r
      → find? (has_key key k) (update_where (has_key key k) f rs) ≡ some (f r)
  find-update_self k f [] r same e = cc
  find-update_self k f (x ∷ rs) r same e = ground (arith, same x, find-update_self k f rs r same)

  pub find-update_ne :
      (j k : ℕ) (f : A → A) (rs : List A)
      → ((r : A) → key (f r) ≡ key r)
      → j ≢ k
      → find? (has_key key j) (update_where (has_key key k) f rs) ≡ find? (has_key key j) rs
  find-update_ne j k f [] same ne = refl
  find-update_ne j k f (x ∷ rs) same ne = ground (arith, same x, find-update_ne j k f rs same ne)

pub find-holds {ℓ} :
    {A : Type ℓ} (p : A → Bool) (rs : List A) (r : A) → find? p rs ≡ some r → p r ≡ true
find-holds p [] r e = cc
find-holds p (x ∷ rs) r e = elim (Bool-cases (p x)) [
  | inl hit ↦ ground arith
  | inr miss ↦ find-holds p rs r (rw miss at e)
]

module _ {ℓ} {A : Type ℓ} (key : A → ℕ) where
  find-absent :
      (p : A → Bool) (k : ℕ) (rs : List A) (r : A)
      → All (λ s. key s ≢ k) rs
      → find? p rs ≡ some r
      → key r ≢ k
  find-absent p k [] r h e = cc
  find-absent p k (x ∷ rs) r h e = ground (arith, h.0, find-absent p k rs r h.1)

  -- A row that a search by any test has found is the row that its key finds.
  pub find_by_key :
      (p : A → Bool) (rs : List A) (r : A)
      → IsKeyed key rs
      → find? p rs ≡ some r
      → find? (has_key key (key r)) rs ≡ some r
  find_by_key p [] r u e = cc
  find_by_key p (x ∷ rs) r u e =
      ground (arith, find-absent p (key x) rs r u.0, find_by_key p rs r u.1)

  -- Each row is what its key finds.
  pub All-found :
      (rs : List A) → IsKeyed key rs → All (λ r. find? (has_key key (key r)) rs ≡ some r) rs
  All-found [] u = tt
  All-found (x ∷ rs) u = (
    ground arith,
    All-zip (λ s. key s ≢ key x) (λ r. find? (has_key key (key r)) rs ≡ some r)
        (λ r. find? (has_key key (key r)) (x ∷ rs) ≡ some r) rs (λ r ne f. ground arith) u.0
        (All-found rs u.1),
  )

module _ {ℓ} {A : Type ℓ} (key : A → ℕ) where
  All-ne-update_where :
      (j : ℕ) (p : A → Bool) (f : A → A) (rs : List A)
      → ((r : A) → key (f r) ≡ key r)
      → All (λ s. key s ≢ j) rs
      → All (λ s. key s ≢ j) (update_where p f rs)
  All-ne-update_where j p f [] same h = tt
  All-ne-update_where j p f (r ∷ rs) same h =
      ground (arith, same r, All-ne-update_where j p f rs same h.1)

  -- The same for an update of any rows.
  pub update_where-IsKeyed :
      (p : A → Bool) (f : A → A) (rs : List A)
      → ((r : A) → key (f r) ≡ key r)
      → IsKeyed key rs
      → IsKeyed key (update_where p f rs)
  update_where-IsKeyed p f [] same u = tt
  update_where-IsKeyed p f (r ∷ rs) same u = elim (Bool-cases (p r)) [
    | inl hit ↦
        rw (hit, same r)
          (All-ne-update_where (key r) p f rs same u.0, update_where-IsKeyed p f rs same u.1)
    | inr miss ↦
        rw miss (All-ne-update_where (key r) p f rs same u.0, update_where-IsKeyed p f rs same u.1)
  ]

  insert_sorted-IsKeyed :
      (less : A → A → Bool) (x : A) (ys : List A)
      → All (λ s. key s ≢ key x) ys
      → IsKeyed key ys
      → IsKeyed key (insert_sorted less x ys)
  insert_sorted-IsKeyed less x [] h u = (tt, tt)
  insert_sorted-IsKeyed less x (y ∷ ys) h u = elim (Bool-cases (less y x)) [
    | inl later ↦ rw later (
      All-insert_sorted (λ s. key s ≢ key y) less x ys (λ e. h.0 (sym e)) u.0,
      insert_sorted-IsKeyed less x ys h.1 u.1,
    )
    | inr here ↦ rw here (h, u)
  ]

  pub sort-IsKeyed :
      (less : A → A → Bool) (xs : List A) → IsKeyed key xs → IsKeyed key (sort less xs)
  sort-IsKeyed less [] u = tt
  sort-IsKeyed less (x ∷ xs) u =
      insert_sorted-IsKeyed less x (sort less xs) (All-sort (λ s. key s ≢ key x) less xs u.0)
        (sort-IsKeyed less xs u.1)

  pub where-IsKeyed : (p : A → Bool) (xs : List A) → IsKeyed key xs → IsKeyed key (where_ p xs)
  where-IsKeyed p [] u = tt
  where-IsKeyed p (x ∷ xs) u = elim (Bool-cases (p x)) [
    | inl hit ↦ rw hit (All-where (λ s. key s ≢ key x) p xs u.0, where-IsKeyed p xs u.1)
    | inr miss ↦ rw miss (where-IsKeyed p xs u.1)
  ]

  pub take-IsKeyed : (n : ℕ) (xs : List A) → IsKeyed key xs → IsKeyed key (take n xs)
  take-IsKeyed zero xs u = tt
  take-IsKeyed (suc n) [] u = tt
  take-IsKeyed (suc n) (x ∷ xs) u = (All-take (λ s. key s ≢ key x) n xs u.0, take-IsKeyed n xs u.1)

  -- A read after an update of any rows.
  pub find-update_where :
      (k : ℕ) (p : A → Bool) (f : A → A) (rs : List A) (r : A)
      → ((r : A) → key (f r) ≡ key r)
      → find? (has_key key k) rs ≡ some r
      → find? (has_key key k) (update_where p f rs) ≡ some (if p r then f r else r)
  find-update_where k p f [] r same e = cc
  find-update_where k p f (x ∷ rs) r same e = elim (Bool-cases (key x == k)) [
    | inl hit ↦ ground (arith, same x)
    | inr miss ↦ ground (arith, same x, find-update_where k p f rs r same (rw miss at e))
  ]
