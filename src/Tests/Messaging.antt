-- ===== src/Tests/Messaging.antt =====
-- The theorems about the topics at concrete traffic.
use kitchen_ops.Base.{
  ℕ, zero, suc, ◌≡◌, ◌≤◌, ◌↔◌, ◌⊎◌, refl, true, false, Option, none, some, List, [], ◌∷◌, Bytes,
  codes, pos, ltb, if◌then◌else◌,
}
use kitchen_ops.Models.{DomainEvent, EventType}
use kitchen_ops.Messaging.Kafka.{
  KafkaConfig, reader_config, open_topic, Consuming, publish_event, consume, consume_reads,
  handle_attempts,
}
use kitchen_ops.Messaging.Kafka.Publishing.{publish_event_iff, publish_event_sleeps}
use kitchen_ops.Messaging.Kafka.Delivery.{Delivered, messages, logged, consume_delivers}
use kitchen_ops.Messaging.InMemory.{new_in_memory_topic}
use kitchen_ops.Messaging.InMemory.Order.{
  Use, publishes, consumes, use_all, InOrder, use_all-InOrder,
}

abbrev event : Bytes → DomainEvent
event payload = record { type = EventType.task_ready; timestamp = 7; payload = payload }

-- The third attempt is the first that succeeds.
abbrev third : ℕ → Option Bytes
third n = if ltb n 3 then some (codes "no leader") else none

publish_event_iff_example :
    ((publish_event third (λ n. none) none).0 ≡ none)
    ↔ ((third 1 ≡ none) ⊎ ((third 2 ≡ none) ⊎ (third 3 ≡ none)))
publish_event_iff_example = publish_event_iff third (λ n. none) (λ n. refl)

publish_event_sleeps_example : (publish_event third (λ n. none) none).1 ≤ 900
publish_event_sleeps_example = publish_event_sleeps third (λ n. none) none

abbrev config : KafkaConfig
config = record {
  brokers = codes "localhost:9092" ∷ [];
  topic = codes "kitchen-events";
  group_id = codes "bridge";
  partition = pos 0;
  from_beginning = false;
}

-- An empty payload is no event, and the handler fails on every second call.
abbrev read_event : Bytes → Option DomainEvent
read_event [] = none
read_event (c ∷ text) = some (event (c ∷ text))

abbrev flaky : DomainEvent → ℕ → Option Bytes × ℕ
flaky evt zero = (some (codes "busy"), 1)
flaky evt (suc n) = (none, n)

abbrev values : List Bytes
values = codes "3" ∷ [] ∷ codes "5" ∷ []

flaky_log :
    (consume read_event
      (λ _. false)
      (logged flaky)
      (open_topic config)
      (messages values)
      (0, [])).1.1
    ≡ event (codes "3") ∷ event (codes "3") ∷ event (codes "5") ∷ event (codes "5") ∷ []
unfolding consume consume_reads handle_attempts
flaky_log = refl

consume_delivers_example :
    ((consume read_event
        (λ _. false)
        (logged flaky)
        (open_topic config)
        (messages values)
        (0, [])).0
      ≡ Consuming.waiting)
    × Delivered
        (event (codes "3") ∷ event (codes "5") ∷ [])
        (consume read_event
          (λ _. false)
          (logged flaky)
          (open_topic config)
          (messages values)
          (0, [])).1.1
consume_delivers_example =
    consume_delivers read_event flaky (open_topic config) (reader_config config) values 0 refl

-- A buffer of one: the second event waits, the context ends the last call.
abbrev uses : List Use
uses =
    publishes none false (event (codes "3"))
    ∷ publishes none false (event (codes "5"))
    ∷ consumes none false
    ∷ publishes (some (codes "context canceled")) false (event (codes "7"))
    ∷ consumes (some (codes "context canceled")) true
    ∷ []

use_all-InOrder_example : InOrder (
    use_all
      (λ evt log. none)
      (record { topic = new_in_memory_topic (pos 1); accepted = []; handled = [] })
      uses)
use_all-InOrder_example = use_all-InOrder (λ evt log. none) (pos 1) uses
