-- ===== src/Consistency/Requests.antt =====
-- The requests that reach the service, and what they keep if their transactions keep it.
use kitchen_ops.Base.{
  ℕ, refl, Bool, true, false, Option, none, some, List, [], ◌∷◌, Bytes, if◌then◌else◌, ◌||◌, codes,
}
use kitchen_ops.Base.Decimal.{parse_uint, format_uint}
use kitchen_ops.Models.{TaskModel, Database, DomainEvent, is_unassigned}
use kitchen_ops.Runtime.{
  Services, Kitchen, Action, Result, ok, err, Error, pure, throw, ◌>>=◌, or_throw, not_found,
  transaction,
}
use kitchen_ops.Runtime.Outcomes.{Keeps, Preserves, bind-Keeps, call-Keeps, transaction_keeps}
use kitchen_ops.Repository.Lifecycle.{get_task_by_id, requeue_body, requeue_expired_assigned_tasks}
use kitchen_ops.Application.Scores.{enqueue, pop_top_n, queue_score}
use kitchen_ops.Application.Allocation.{
  attempt, assign_task, put_back, settle, try_assign, assign_each, enqueue_requeued,
  requeue_expired, allocate_once,
}
use kitchen_ops.Base.Text.{contains}
use kitchen_ops.Temporal.{
  is_listed, error_text, handle_event, forgive, complete_task_by_id_activity,
}
use kitchen_ops.Application.Tasks.{start_body, complete_body, start_task, complete_task}

module _ {F Q : Type 0} (w : Services F Q) (I : Database F → Type 0) where
  or_throw-Keeps : {A : Type 0} (o : Option A) (e : Error) → Keeps {F = F} {Q = Q} I (or_throw o e)
  or_throw-Keeps none e s h = h
  or_throw-Keeps (some a) e s h = h

  if_Keeps :
      {A : Type 0} (b : Bool) (m n : Action F Q A)
      → Keeps I m
      → Keeps I n
      → Keeps I (if b then m else n)
  if_Keeps true m n hm hn = hm
  if_Keeps false m n hm hn = hn

  enqueue-Keeps : (id : Bytes) (score : F) → Keeps I (enqueue w id score)
  unfolding enqueue
  enqueue-Keeps id score = call-Keeps w I _ (λ s. refl)

  put_back-Keeps : (task_id : ℕ) → Keeps I (put_back w task_id)
  unfolding put_back get_task_by_id
  put_back-Keeps task_id s h =
      bind-Keeps I (get_task_by_id w task_id) _
        (bind-Keeps I _ (λ row. or_throw row not_found) (call-Keeps w I _ (λ s. refl))
          (λ row. or_throw-Keeps row not_found))
        (λ task s'.
          if_Keeps (is_unassigned task.status)
            (enqueue w (format_uint task.id)
              (queue_score w.float (w.clock s'.calls) task.base_priority task.created_at))
            (pure tt) (enqueue-Keeps _ _) (λ t ht. ht) s')
        s h

  settle-Keeps : (task_id first : ℕ) (r : Result ℕ) → Keeps I (settle w task_id first r)
  unfolding settle
  settle-Keeps task_id first (ok id) = λ s h. h
  settle-Keeps task_id first (err e) =
      bind-Keeps I (put_back w task_id) (λ _. pure first) (put_back-Keeps task_id) (λ _ s h. h)

  enqueue_requeued-Keeps : (tasks : List (TaskModel F)) → Keeps I (enqueue_requeued w tasks)
  unfolding enqueue_requeued
  enqueue_requeued-Keeps [] = λ s h. h
  enqueue_requeued-Keeps (task ∷ tasks) = λ s h.
      bind-Keeps I (enqueue w _ _) (λ _. enqueue_requeued w tasks) (enqueue-Keeps _ _)
        (λ _. enqueue_requeued-Keeps tasks) s h

  -- An allocation keeps what its transactions keep.
  module _ (assigns : (now task_id : ℕ) → Keeps I (transaction w (assign_task w now task_id))) where
    try_assign-Keeps : (now first : ℕ) (o : Option ℕ) → Keeps I (try_assign w now first o)
    unfolding try_assign
    try_assign-Keeps now first none = λ s h. h
    try_assign-Keeps now first (some task_id) =
        bind-Keeps I (attempt (transaction w (assign_task w now task_id))) (settle w task_id first)
          (λ s h. assigns now task_id s h) (settle-Keeps task_id first)

    assign_each-Keeps : (now first : ℕ) (ids : List Bytes) → Keeps I (assign_each w now first ids)
    unfolding assign_each
    assign_each-Keeps now first [] = λ s h. h
    assign_each-Keeps now first (raw ∷ ids) =
        bind-Keeps I (try_assign w now first (parse_uint raw)) (λ f. assign_each w now f ids)
          (try_assign-Keeps now first (parse_uint raw)) (λ f. assign_each-Keeps now f ids)

    allocate_once-Keeps :
        ((cutoff limit : ℕ) → Keeps I (requeue_expired_assigned_tasks w cutoff limit))
        → Keeps I (allocate_once w)
    unfolding allocate_once requeue_expired pop_top_n
    allocate_once-Keeps requeues s h =
        bind-Keeps I (requeue_expired w now) _
          (bind-Keeps I (requeue_expired_assigned_tasks w _ 50) (enqueue_requeued w) (requeues _ 50)
            enqueue_requeued-Keeps)
          (λ _.
            bind-Keeps I (pop_top_n w 20) (assign_each w now 0) (call-Keeps w I _ (λ t. refl))
              (assign_each-Keeps now 0))
          s h
      where
        now : ℕ
        now = w.clock s.calls

-- The requests that reach the service: by the API, by an event of the topic, by the workflow that
-- completes a task when its time is up.
pub data Request : Type 0 where
  allocates : Request
  starts completes : ℕ → Request
  handles : DomainEvent → Request
  auto_completes : ℕ → Request

module _ {F Q : Type 0} (w : Services F Q) where
  -- The state after a request, whatever its answer.
  unfoldable pub serve : Kitchen F Q → Request → Kitchen F Q
  serve s allocates = (allocate_once w s).1
  serve s (starts task_id) = (start_task w task_id s).1
  serve s (completes task_id) = (complete_task w task_id s).1
  serve s (handles event) = (handle_event w event s).1
  serve s (auto_completes task_id) = (complete_task_by_id_activity w task_id s).1

  unfoldable pub serve_all : Kitchen F Q → List Request → Kitchen F Q
  serve_all s [] = s
  serve_all s (r ∷ rs) = serve_all (serve s r) rs

  -- What the transactions' bodies keep when they succeed, any sequence of requests keeps.
  pub serve_all_keeps :
      (I : Database F → Type 0)
      → ((now task_id : ℕ) → Preserves {F = F} {Q = Q} I (assign_task w now task_id))
      → ((cutoff limit : ℕ) → Preserves {F = F} {Q = Q} I (requeue_body w cutoff limit))
      → ((now task_id : ℕ) → Preserves {F = F} {Q = Q} I (start_body w now task_id))
      → ((now task_id : ℕ) → Preserves {F = F} {Q = Q} I (complete_body w now task_id))
      → (s : Kitchen F Q) (rs : List Request) → I s.db
      → I (serve_all s rs).db
  unfolding serve_all serve start_task complete_task requeue_expired_assigned_tasks handle_event
      complete_task_by_id_activity forgive
  serve_all_keeps I assigns requeues starts_keep completes_keep s [] h = h
  serve_all_keeps I assigns requeues starts_keep completes_keep s (r ∷ rs) h =
      serve_all_keeps I assigns requeues starts_keep completes_keep (serve s r) rs (after r)
    where
      allocation_kept : Keeps I (allocate_once w)
      allocation_kept =
          allocate_once-Keeps w I
            (λ now task_id s' h'.
              transaction_keeps w I (assign_task w now task_id) s' h' (assigns now task_id))
            (λ cutoff limit s' h'. transaction_keeps w I _ s' h' (requeues cutoff limit))

      after : (q : Request) → I (serve s q).db
      after allocates = allocation_kept s h
      after (starts task_id) = transaction_keeps w I _ s h (starts_keep (w.clock s.calls) task_id)
      after (completes task_id) =
          transaction_keeps w I _ s h (completes_keep (w.clock s.calls) task_id)
      after (handles event) =
          if_Keeps w I (is_listed event.type) (allocate_once w >>= λ _. pure tt) (pure tt)
            (bind-Keeps I (allocate_once w) _ allocation_kept (λ _ t k. k)) (λ t k. k) s h
      after (auto_completes task_id) =
          bind-Keeps I (attempt (complete_task w task_id)) (forgive w)
            (λ t k. transaction_keeps w I _ t k (completes_keep (w.clock t.calls) task_id))
            forgive_keeps s h
        where
          forgive_keeps : (r : Result (Unit {0})) → Keeps {F = F} {Q = Q} I (forgive w r)
          forgive_keeps (ok a) t k = k
          forgive_keeps (err e) t k =
              if_Keeps w I
                (contains (error_text e) (codes "is not STARTED")
                  || contains (error_text e) (codes "not found"))
                (pure tt) (throw e) (λ t' k'. k') (λ t' k'. k') t k
