-- ===== src/Messaging/Kafka/Publishing.antt =====
-- When Publish succeeds, and how long it takes.
use kitchen_ops.Base.{
  ℕ, suc, ◌+◌, ◌*◌, [], ◌≡◌, ◌≤◌, ◌↔◌, ◌⊎◌, inl, inr, refl, Option, none, some, Bytes, arith,
}
use kitchen_ops.Messaging.Kafka.{after_write, publish_attempts, publish_event}

module _ (writes ctx_err : ℕ → Option Bytes) where
  -- A step of the loop, while the context is not cancelled.
  attempt_iff :
      (n attempt slept : ℕ) (e : Bytes) (Later : Type 0)
      → ctx_err attempt ≡ none
      → ((e' : Bytes)
          → ((publish_attempts writes ctx_err n (attempt + 1) e' (slept + attempt * 150)).0 ≡ none)
            ↔ Later)
      → ((publish_attempts writes ctx_err (suc n) attempt e slept).0 ≡ none)
        ↔ ((writes attempt ≡ none) ⊎ Later)
  unfolding publish_attempts
  attempt_iff n attempt slept e Later live later = go (writes attempt) (ctx_err attempt) live
    where
      go :
          (answer ended : Option Bytes)
          → ended ≡ none
          → ((after_write answer ended
                (λ e'. publish_attempts writes ctx_err n (attempt + 1) e' (slept + attempt * 150))
                slept).0
              ≡ none)
            ↔ ((answer ≡ none) ⊎ Later)
      go none ended h = ((λ _. inl refl), (λ _. refl))
      go (some e') (some c) h = cc
      go (some e') none h = (
        (λ sent. inr ((later e').0 sent)),
        (λ s. elim s [ inl failed ↦ cc | inr l ↦ (later e').1 l ]),
      )

  attempt_last :
      (attempt slept : ℕ) (e : Bytes)
      → ctx_err attempt ≡ none
      → ((publish_attempts writes ctx_err 1 attempt e slept).0 ≡ none) ↔ (writes attempt ≡ none)
  unfolding publish_attempts
  attempt_last attempt slept e live =
      let step = attempt_iff 0 attempt slept e ⊥ live (λ e'. ((λ h. cc), (λ h. absurd h))) in
      ((λ h. elim (step.0 h) [ inl sent ↦ sent | inr b ↦ absurd b ]), (λ h. step.1 (inl h)))

  -- While the context is not cancelled, Publish of an event that can be encoded succeeds if and only
  -- if one of its three writes would: a failure of the first two is made good by a later one.
  pub publish_event_iff :
      ((n : ℕ) → ctx_err n ≡ none)
      → ((publish_event writes ctx_err none).0 ≡ none)
        ↔ ((writes 1 ≡ none) ⊎ ((writes 2 ≡ none) ⊎ (writes 3 ≡ none)))
  unfolding publish_event
  publish_event_iff live =
      attempt_iff 2 1 0 [] _ (live 1)
        λ e₁. attempt_iff 1 2 150 e₁ _ (live 2) λ e₂. attempt_last 3 450 e₂ (live 3)

  -- An attempt sleeps for 150 milliseconds times its number, if another follows.
  attempt_sleeps :
      (n attempt slept bound : ℕ) (e : Bytes)
      → slept ≤ bound
      → ((e' : Bytes)
          → (publish_attempts writes ctx_err n (attempt + 1) e' (slept + attempt * 150)).1 ≤ bound)
      → (publish_attempts writes ctx_err (suc n) attempt e slept).1 ≤ bound
  unfolding publish_attempts
  attempt_sleeps n attempt slept bound e h k = go (writes attempt) (ctx_err attempt)
    where
      go :
          (answer ended : Option Bytes)
          → (after_write answer ended
              (λ e'. publish_attempts writes ctx_err n (attempt + 1) e' (slept + attempt * 150))
              slept).1
            ≤ bound
      go none ended = h
      go (some e') (some c) = h
      go (some e') none = k e'

  -- Whatever the writes and the context answer, Publish sleeps for 900 milliseconds at most.
  pub publish_event_sleeps : (e : Option Bytes) → (publish_event writes ctx_err e).1 ≤ 900
  unfolding publish_event publish_attempts
  publish_event_sleeps (some e) = omega arith
  publish_event_sleeps none = attempt_sleeps 2 1 0 900 [] (omega arith) λ e₁.
      attempt_sleeps 1 2 150 900 e₁ (omega arith)
        λ e₂. attempt_sleeps 0 3 450 900 e₂ (omega arith) λ e₃. omega arith
