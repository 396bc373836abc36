-- ===== src/Programs/Consuming.antt =====
-- cmd/topic-consumer: what it starts for the messages that it reads.
use kitchen_ops.Base.{
  Bool, true, bytes_eq, if◌then◌else◌, ℕ, ◌≡◌, ◌≢◌, refl, sym, ap, ◌∙◌, false, Option, none, some,
  List, [], ◌∷◌, ◌++◌, map, append_assoc, append-nil, Bytes, codes,
}
use kitchen_ops.Config.{env_csv}
use kitchen_ops.Models.{DomainEvent, event_type_text}
use kitchen_ops.Runtime.{Result, ok}
use kitchen_ops.Messaging.Kafka.{
  ReaderConfig, Consuming, handle_attempts, after_message, consume_reads, consume,
}
use kitchen_ops.Messaging.Kafka.Delivery.{add_readable, readable, messages}
use kitchen_ops.Temporal.Workflows.{Workflow, WorkflowStart, workflow_of, start_of}
use kitchen_ops.Temporal.Bridge.{handle_event, run_topic_consumer}
use kitchen_ops.Programs.Opening.{consumer_config_opens}
use kitchen_ops.Programs.Main.{ConsumerProgram, runs, temporal_address, topic_consumer_main}

-- The workflow that an event is for, and the one that was started.
abbrev pub due : DomainEvent → Workflow × DomainEvent
due e = (
  if bytes_eq (event_type_text e.type) (codes "TASK_STARTED")
      then Workflow.auto_complete_task_workflow
      else Workflow.allocation_workflow,
  e,
)

workflow_of-due :
    (is_start : Bool)
    → workflow_of is_start
      ≡ (if is_start then Workflow.auto_complete_task_workflow else Workflow.allocation_workflow)
workflow_of-due true = refl
workflow_of-due false = refl

abbrev pub started : WorkflowStart → Workflow × DomainEvent
started w = (w.workflow, w.event)

module _ {S : Type 0} (clock : S → ℕ) (run_by : WorkflowStart → S → S) where
  -- A client that accepts every workflow, with a log of them.
  abbrev pub accept :
      WorkflowStart → S × List WorkflowStart → Option Bytes × (S × List WorkflowStart)
  accept w (s, log) = (none, (run_by w s, log ++ w ∷ []))

  abbrev pub clock_of : S × List WorkflowStart → ℕ
  clock_of (s, log) = clock s

  -- The consumer waits, and has started what is due for the events, and nothing else.
  abbrev Starts :
      List WorkflowStart → List DomainEvent → Consuming × (S × List WorkflowStart) → Type 0
  Starts log events r =
      (r.0 ≡ Consuming.waiting)
      × (new : List WorkflowStart) × (r.1.1 ≡ log ++ new)
      × (map started new ≡ map due events)

  module _ (unmarshal : Bytes → Option DomainEvent) where
    event-Starts :
        (o : Option DomainEvent) (events : List DomainEvent) (s : S) (log : List WorkflowStart)
        (more : S × List WorkflowStart → Consuming × (S × List WorkflowStart))
        → ((s' : S) (log' : List WorkflowStart) → Starts log' events (more (s', log')))
        → Starts log
            (add_readable o events)
            (after_message unmarshal (λ _. false) (handle_event clock_of accept) o more (s, log))
    unfolding handle_attempts start_of
    event-Starts none events s log more h = h s log
    event-Starts (some e) events s log more h =
        let w = start_of (clock s) e in
        let (waits, new, eq, dues) = h (run_by w s) (log ++ w ∷ []) in
        (
          waits,
          w ∷ new,
          eq ∙ append_assoc log (w ∷ []) new,
          ap (λ k. (k, e) ∷ map started new)
                (workflow_of-due (bytes_eq (event_type_text e.type) (codes "TASK_STARTED")))
              ∙ ap (λ ds. due e ∷ ds) dues,
        )

    reads_start :
        (values : List Bytes) (s : S) (log : List WorkflowStart)
        → Starts log (readable unmarshal values) (
            consume_reads unmarshal
              (λ _. false)
              (handle_event clock_of accept)
              (messages values)
              (s, log))
    unfolding consume_reads
    reads_start [] s log = (refl, [], sym (append-nil log), refl)
    reads_start (value ∷ values) s log =
        event-Starts (unmarshal value) (readable unmarshal values) s log _ (reads_start values)

    abbrev pub consumed :
        {C : Type 0} → ConsumerProgram C → List Bytes → S → Consuming × (S × List WorkflowStart)
    consumed p values s =
        run_topic_consumer clock_of accept unmarshal (λ _. false) p.topic (messages values) (s, [])

    topic_starts :
        {C : Type 0} (p : ConsumerProgram C) (reader : ReaderConfig) (values : List Bytes) (s : S)
        → p.topic.reader ≡ some reader
        → ((consumed p values s).0 ≡ Consuming.waiting)
          × (map started (consumed p values s).1.1 ≡ map due (readable unmarshal values))
    unfolding run_topic_consumer consume
    topic_starts p reader values s h =
        let (waits, new, eq, dues) = reads_start values s [] in
        rw h (waits, ap (map started) eq ∙ dues)

    module _ {C : Type 0} (getenv : Bytes → Bytes) (dial : Bytes → Result C) (client : C)
        (dialled : dial (temporal_address getenv) ≡ ok client)
        (some_broker : env_csv getenv (codes "KAFKA_BROKERS") (codes "localhost:9092") ≢ []) where
      -- If Temporal answers and a broker is named, the topic consumer runs. If then no read fails and
      -- Temporal accepts each start, it waits for the next message after any number of them, and has
      -- started one workflow for each event that can be read, with it, in the order of the messages:
      -- the completion of the task where the text of the event's type is TASK_STARTED, an allocation
      -- for any other.
      pub topic_consumer_main_starts :
          (values : List Bytes) (s : S)
          → (p : ConsumerProgram C) × (topic_consumer_main getenv dial ≡ runs p)
            × ((consumed p values s).0 ≡ Consuming.waiting)
            × (map started (consumed p values s).1.1 ≡ map due (readable unmarshal values))
      unfolding topic_consumer_main
      topic_consumer_main_starts values s =
          let (t, reader, opens, reads, _) = consumer_config_opens getenv some_broker in
          let p : ConsumerProgram C = record { client = client; topic = t } in
          let (waits, dues) = topic_starts p reader values s reads in
          (p, rw (dialled, opens) refl, waits, dues)
