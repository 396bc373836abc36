-- ===== src/Temporal/Repeated.antt =====
-- A completion that comes again does nothing.
use kitchen_ops.Base.{
  ℕ, ◌≡◌, ◌+◌, refl, Bool, true, false, if◌then◌else◌, ◌||◌, none, some, [], ◌∷◌, ◌++◌, Bytes,
  codes, find?, has_key, arith,
}
use kitchen_ops.Base.Decimal.{format_uint}
use kitchen_ops.Models.{TaskModel, is_started}
use kitchen_ops.Runtime.{
  Services, Kitchen, err, ok, pure, throw, not_started, call, on_tx, transaction,
}
use kitchen_ops.Repository.Lifecycle.{read_task_locked, update_task_status_completed}
use kitchen_ops.Application.Tasks.{complete_task, complete_body}
use kitchen_ops.Base.Text.{contains}
use kitchen_ops.Temporal.{error_text, forgive, complete_task_by_id_activity}

contains-append : (a b key : Bytes) → contains b key ≡ true → contains (a ++ b) key ≡ true
contains-append [] b key h = h
contains-append (c ∷ a) b key h = ground (arith, contains-append a b key h)

says_not_started : (id : ℕ) → contains (error_text (not_started id)) (codes "is not STARTED") ≡ true
says_not_started id =
    contains-append (codes "task ") (format_uint id ++ codes " is not STARTED")
      (codes "is not STARTED")
      (contains-append (format_uint id) (codes " is not STARTED") (codes "is not STARTED") refl)

module _ {F Q : Type 0} (w : Services F Q) (quiet : (n : ℕ) → w.fails n ≡ none) where
  refused :
      (s : Kitchen F Q) (id : ℕ) (t : TaskModel F)
      → find? (has_key (λ r. r.id) id) s.db.tasks ≡ some t
      → is_started t.status ≡ false
      → complete_task w id s
        ≡ (err (not_started t.id), record s { calls = s.calls + 1 + 1 + 1; aborted = false })
  unfolding complete_task transaction call complete_body update_task_status_completed
      read_task_locked on_tx
  refused s id t found idle = rw (quiet s.calls, quiet (s.calls + 1), found, idle) refl

  forgiven : (id : ℕ) (s : Kitchen F Q) → forgive w (err (not_started id)) s ≡ (ok tt, s)
  unfolding forgive
  forgiven id s = forgiving _ _ (says_not_started id)
    where
      forgiving :
          (b c : Bool)
          → b ≡ true
          → (if b || c then pure tt else throw (not_started id)) s ≡ (ok tt, s)
      forgiving true c h = refl
      forgiving false c h = cc

  -- If no call fails, CompleteTaskByIDActivity succeeds for a task that is not started, and leaves
  -- the database as it is: a completion that comes twice counts once.
  pub complete_task_by_id_activity_again :
      (s : Kitchen F Q) (id : ℕ) (t : TaskModel F)
      → find? (has_key (λ r. r.id) id) s.db.tasks ≡ some t
      → is_started t.status ≡ false
      → ((complete_task_by_id_activity w id s).0 ≡ ok tt)
        × ((complete_task_by_id_activity w id s).1.db ≡ s.db)
  unfolding complete_task_by_id_activity
  complete_task_by_id_activity_again s id t found idle =
      rw (refused s id t found idle, forgiven t.id) (refl, refl)
