-- ===== src/Consistency/Balance.antt =====
-- A resource table (counters, machines, staff) against the table of the tasks that hold it.
use kitchen_ops.Base.{
  ℕ, ◌+◌, ◌-◌, ◌≤◌, ◌<◌, ◌≡◌, refl, Bool, false, some, List, [], ◌∷◌, ◌==◌, ==_iff, All, count,
  find?, update_where, has_key, IsKeyed, count-update, arith, ◌≢◌, Bool-cases, subst, sym, ◌∙◌, inl,
  inr,
}

module _ {R T : Type 0} (key used cap : R → ℕ) (task_key : T → ℕ) (holds : ℕ → T → Bool) where
  -- Each row's use is the number of the tasks that hold it, and lies within its capacity.
  abbrev pub Balanced : List R → List T → Type 0
  Balanced rows tasks = All (λ r. (used r ≡ count (holds (key r)) tasks) × (used r ≤ cap r)) rows

  module _ (j : ℕ) (g : T → T) (tasks : List T) (t : T) (keyed : IsKeyed task_key tasks)
      (found : find? (has_key task_key j) tasks ≡ some t) where
    -- A change of the task's row that moves no resource.
    pub Balanced-keep :
        (rows : List R)
        → ((i : ℕ) → holds i (g t) ≡ holds i t)
        → Balanced rows tasks
        → Balanced rows (update_where (has_key task_key j) g tasks)
    Balanced-keep [] same b = tt
    Balanced-keep (r ∷ rows) same b = (
      ground
          (arith, same (key r), count-update task_key (holds (key r)) j g tasks t keyed found, b.0),
      Balanced-keep rows same b.1,
    )

    -- The task takes a unit of row k.
    pub Balanced-take :
        (k : ℕ) (f : R → R) (rows : List R)
        → ((i : ℕ) → holds i t ≡ false)
        → ((i : ℕ) → holds i (g t) ≡ (i == k))
        → ((r : R) → (key (f r) ≡ key r) × (used (f r) ≡ used r + 1) × (cap (f r) ≡ cap r))
        → All (λ r. key r ≡ k → used r < cap r) rows
        → Balanced rows tasks
        → Balanced (update_where (has_key key k) f rows) (update_where (has_key task_key j) g tasks)
    Balanced-take k f [] before after effect room b = tt
    Balanced-take k f (r ∷ rows) before after effect room b = (
      ground (
        arith,
        before (key r),
        after (key r),
        before (key (f r)),
        effect r,
        room.0,
        count-update task_key (holds (key r)) j g tasks t keyed found,
        b.0,
      ),
      Balanced-take k f rows before after effect room.1 b.1,
    )

    -- The task gives its unit of row k back.
    pub Balanced-drop :
        (k : ℕ) (f : R → R) (rows : List R)
        → ((i : ℕ) → holds i t ≡ (i == k))
        → ((i : ℕ) → holds i (g t) ≡ false)
        → ((r : R) → (key (f r) ≡ key r) × (used (f r) ≡ used r - 1) × (cap (f r) ≡ cap r))
        → Balanced rows tasks
        → Balanced (update_where (has_key key k) f rows) (update_where (has_key task_key j) g tasks)
    Balanced-drop k f [] before after effect b = tt
    Balanced-drop k f (r ∷ rows) before after effect b = (
      ground (
        arith,
        before (key r),
        after (key r),
        effect r,
        count-update task_key (holds (key r)) j g tasks t keyed found,
        b.0,
      ),
      Balanced-drop k f rows before after effect b.1,
    )

module _ {R : Type 0} (key used cap : R → ℕ) where
  no_room_needed :
      (k : ℕ) (rows : List R)
      → All (λ r. key r ≢ k) rows
      → All (λ r. key r ≡ k → used r < cap r) rows
  no_room_needed k [] h = tt
  no_room_needed k (r ∷ rows) h = ((λ e. absurd (h.0 e)), no_room_needed k rows h.1)

  -- With a primary key, room in the row that was read is room in every row of that key.
  pub room_of_found :
      (k : ℕ) (rows : List R) (r : R)
      → IsKeyed key rows
      → find? (has_key key k) rows ≡ some r
      → used r < cap r
      → All (λ x. key x ≡ k → used x < cap x) rows
  room_of_found k [] r keyed found room = tt
  room_of_found k (x ∷ rows) r keyed found room = elim (Bool-cases (key x == k)) [
    | inl hit ↦
        let e : key x ≡ k = (==_iff _ _).0 hit in
        (ground arith, no_room_needed k rows (subst (λ n. All (λ s. key s ≢ n) rows) e keyed.0))
    | inr miss ↦ (ground arith, room_of_found k rows r keyed.1 (ground arith) room)
  ]

module _ {R T : Type 0} (key used cap : R → ℕ) (task_key : T → ℕ) (holds : ℕ → T → Bool) where
  count-update_same :
      (i : ℕ) (p : T → Bool) (g : T → T) (tasks : List T)
      → ((t : T) → holds i (g t) ≡ holds i t)
      → count (holds i) (update_where p g tasks) ≡ count (holds i) tasks
  count-update_same i p g [] same = refl
  count-update_same i p g (t ∷ tasks) same =
      ground (arith, same t, count-update_same i p g tasks same)

  -- A change of any tasks that moves no resource.
  pub Balanced-keep_all :
      (p : T → Bool) (g : T → T) (tasks : List T) (rows : List R)
      → ((i : ℕ) (t : T) → holds i (g t) ≡ holds i t)
      → Balanced key used cap task_key holds rows tasks
      → Balanced key used cap task_key holds rows (update_where p g tasks)
  Balanced-keep_all p g tasks [] same b = tt
  Balanced-keep_all p g tasks (r ∷ rows) same b = (
    (b.0.0 ∙ sym (count-update_same (key r) p g tasks (same (key r))), b.0.1),
    Balanced-keep_all p g tasks rows same b.1,
  )
