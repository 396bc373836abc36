-- ===== src/Temporal/Bridge.antt =====
-- internal/temporalx/topic_bridge.go: the consumer that starts workflows, over a Temporal client.
use kitchen_ops.Base.{ℕ, Bool, Option, List, Bytes}
use kitchen_ops.Models.{DomainEvent}
use kitchen_ops.Messaging.Kafka.{KafkaTopic, Read, Consuming, consume}
use kitchen_ops.Temporal.Workflows.{WorkflowStart, start_of}

-- unix_nano: time.Now().UnixNano()
-- execute_workflow: what ExecuteWorkflow of the client does, and its error
module _ {S : Type 0} (unix_nano : S → ℕ)
    (execute_workflow : WorkflowStart → S → Option Bytes × S) where
  abbrev pub handle_event : DomainEvent → S → Option Bytes × S
  handle_event event s = execute_workflow (start_of (unix_nano s) event) s

  unfoldable pub run_topic_consumer :
      (Bytes → Option DomainEvent) → (S → Bool) → KafkaTopic → List Read → S → Consuming × S
  run_topic_consumer unmarshal cancelled topic reads s =
      consume unmarshal cancelled handle_event topic reads s
