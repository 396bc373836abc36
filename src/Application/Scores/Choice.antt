-- ===== src/Application/Scores/Choice.antt =====
-- pickStaff chooses a staff member of least score.
use mathlib.Core.Logic.Or
use mathlib.Core.Logic.{∥∥₁_prop}
use mathlib.Core.List.{Mem, mem-cons, mem-cons_self, mem-cons_of_mem}
use kitchen_ops.Base.{
  ℕ, ◌≡◌, refl, Bool, true, false, List, [], ◌∷◌, All, Bool-cases, inl, inr, if◌then◌else◌,
}
use kitchen_ops.Models.{StaffModel}
use kitchen_ops.Runtime.{Float64}
use kitchen_ops.Application.Scores.{staff_score, pick_from, pick_staff}

pick_from-Mem :
    {F : Type 0} (fl : Float64 F) (now : ℕ) (best : StaffModel F) (score : F)
    (rest : List (StaffModel F))
    → Mem (pick_from fl now best score rest) (best ∷ rest)
unfolding pick_from
pick_from-Mem fl now best score [] = mem-cons_self
pick_from-Mem fl now best score (st ∷ rest) =
    elim (Bool-cases (fl.lt (staff_score fl now st) score)) [
      | inl better ↦ rw better (mem-cons_of_mem best (pick_from-Mem fl now st _ rest))
      | inr worse ↦ rw worse (
          Or.elim ∥∥₁_prop (mem-cons.0 (pick_from-Mem fl now best score rest))
            (λ e. rw e mem-cons_self) (λ m. mem-cons_of_mem best (mem-cons_of_mem st m)))
    ]

-- The order of the float64 values that are numbers.
pub record IsOrdered {F : Type 0} (fl : Float64 F) : Type 0 where
  pub asym : (a b : F) → fl.lt a b ≡ true → fl.lt b a ≡ false
  pub trans : (a b c : F) → fl.lt a b ≡ false → fl.lt b c ≡ false → fl.lt a c ≡ false

module _ {F : Type 0} (fl : Float64 F) (ordered : IsOrdered fl) where
  abbrev pub NoneBelow : ℕ → F → StaffModel F → Type 0
  NoneBelow now score st = fl.lt (staff_score fl now st) score ≡ false

  lt_self : (a : F) → fl.lt a a ≡ false
  lt_self a = elim (Bool-cases (fl.lt a a)) [
    | inl below ↦ ordered.asym a a below
    | inr not_below ↦ not_below
  ]

  -- The best score only falls, and no score seen lies below the last one.
  pick_from-least :
      (now : ℕ) (best : StaffModel F) (score : F) (rest : List (StaffModel F))
      → score ≡ staff_score fl now best
      → let least = staff_score fl now (pick_from fl now best score rest) in
        (fl.lt score least ≡ false) × All (NoneBelow now least) rest
  unfolding pick_from
  pick_from-least now best score [] e = (rw (← e) (lt_self score), tt)
  pick_from-least now best score (st ∷ rest) e =
      combine (fl.lt (staff_score fl now st) score) refl
        (pick_from-least now st (staff_score fl now st) rest refl)
        (pick_from-least now best score rest e)
    where
      least_from : StaffModel F → F → F
      least_from st' score' = staff_score fl now (pick_from fl now st' score' rest)

      AtLeast : F → F → Type 0
      AtLeast score' least = (fl.lt score' least ≡ false) × All (NoneBelow now least) rest

      combine :
          (better : Bool)
          → fl.lt (staff_score fl now st) score ≡ better
          → AtLeast (staff_score fl now st) (least_from st (staff_score fl now st))
          → AtLeast score (least_from best score)
          → let least =
              least_from
                (if better then st else best)
                (if better then staff_score fl now st else score) in
            (fl.lt score least ≡ false) × All (NoneBelow now least) (st ∷ rest)
      combine true lower taken kept =
          (ordered.trans score (staff_score fl now st) _ (ordered.asym _ _ lower) taken.0, taken)
      combine false higher taken kept = (kept.0, (ordered.trans _ score _ higher kept.0, kept.1))

  -- The chosen staff member is one of the list, and none of the list has a lower score.
  pub pick_staff-least :
      (now : ℕ) (first : StaffModel F) (rest : List (StaffModel F))
      → let pick = pick_staff fl now first rest in
        Mem pick (first ∷ rest) × All (NoneBelow now (staff_score fl now pick)) (first ∷ rest)
  unfolding pick_staff
  pick_staff-least now first rest =
      let least = pick_from-least now first (staff_score fl now first) rest refl in
      (pick_from-Mem fl now first _ rest, least)
