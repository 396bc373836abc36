-- ===== src/Application/Scores.antt =====
-- internal/application/priority_service.go, staff_service.go, and the constants and the queue
-- calls of kitchen_service.go
pub mod Choice
use kitchen_ops.Base.{ℕ, Bool, true, false, List, [], ◌∷◌, Bytes, if◌then◌else◌, pos, ◌*◌}
use kitchen_ops.Models.{StaffModel}
use kitchen_ops.Runtime.{
  Services, Float64, Kitchen, Action, ◌>>=◌, ◌>>◌, get, pure, call, seconds, time_sub, second,
}

-- NewKitchenAppService: agingFactor 0.14, weights 1.2, 0.9 and 1.1, assignTTL 45 s.
abbrev pub assign_ttl : ℕ
assign_ttl = 45 * second

module _ {F : Type 0} (fl : Float64 F) where
  abbrev pub aging_factor : F
  aging_factor = fl.decimal 14 2

  abbrev pub weight_load : F
  weight_load = fl.decimal 12 1

  abbrev pub weight_util : F
  weight_util = fl.decimal 9 1

  abbrev pub weight_eff : F
  weight_eff = fl.decimal 11 1

  -- The clock is read here: time.Since(createdAt).
  unfoldable pub queue_score : ℕ → F → ℕ → F
  queue_score now base_priority created_at =
      fl.neg (fl.add base_priority (fl.mul (seconds fl (time_sub now created_at)) aging_factor))

  unfoldable pub staff_score : ℕ → StaffModel F → F
  staff_score now st =
      let shift_secs =
        fl.to_int (fl.max (fl.of_int (pos 1)) (seconds fl (time_sub now st.shift_start))) in
      let util = fl.div (fl.of_int (pos st.active_seconds)) (fl.of_int shift_secs) in
      fl.sub
        (fl.add (fl.mul weight_load (fl.of_int (pos st.active_tasks))) (fl.mul weight_util util))
        (fl.mul weight_eff st.efficiency_multiplier)

  -- The loop over staff[1:]; the first of equal scores stays.
  unfoldable pub pick_from : ℕ → StaffModel F → F → List (StaffModel F) → StaffModel F
  pick_from now best best_score [] = best
  pick_from now best best_score (st ∷ rest) =
      let better = fl.lt (staff_score now st) best_score in
      pick_from now (if better then st else best)
        (if better then staff_score now st else best_score) rest

  -- staff[0] is `first`: the caller has tested that the list is not empty.
  unfoldable pub pick_staff : ℕ → StaffModel F → List (StaffModel F) → StaffModel F
  pick_staff now first rest = pick_from now first (staff_score now first) rest

module _ {F Q : Type 0} (w : Services F Q) where
  -- s.readyQueue.Enqueue
  unfoldable pub enqueue : Bytes → F → Action F Q (Unit {0})
  enqueue task_id score = call w λ s. (tt, record s { queue = w.enqueue task_id score s.queue })

  -- s.readyQueue.PopTopN
  unfoldable pub pop_top_n : ℕ → Action F Q (List Bytes)
  pop_top_n n =
      call w λ s. ((w.pop_top_n n s.queue).0, record s { queue = (w.pop_top_n n s.queue).1 })
