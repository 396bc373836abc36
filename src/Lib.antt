-- ===== src/Lib.antt =====
-- KitchenOps schedules the tasks of kitchen orders on counters, machines and staff: an order
-- becomes tasks with dependencies, a queue holds the tasks that are ready, an allocation assigns
-- them to free resources, and starts and completions move them on and release what they held.
--
-- The parts, and the files that model them:
--   Models: the rows of internal/models, one record for each, and the database of all tables.
--   Runtime: what the code runs on. The state `Kitchen` holds the database, the ready queue, the
--     id sequences, the count of outside calls and the aborted flag of the open transaction. An
--     action takes a state to a result or an error and the state after it. `call` is a statement
--     outside a transaction, `on_tx` one inside, `transaction` is gorm's db.Transaction with its
--     rollback. Runtime/Outcomes has the rules by which proofs step through an action, Success those
--     for runs in which no call fails, Either those where an error is traced
--     to the call that failed, Atomic those of a transaction that happens wholly or not at all, and
--     Sequences those of actions that draw no id.
--   Repository: internal/repository. Allocation, Lifecycle, Orders, Events and Recipes are
--     allocation_repo.go, task_lifecycle_repo.go, order_repo.go, event_repo.go and recipe_repo.go,
--     a function for each method, its WHERE clause a test on rows and its UPDATE a map over them.
--   Application: internal/application. Scores has priority_service.go, staff_service.go and the
--     constants of kitchen_service.go; Service has the service and the repository handle of
--     kitchen_repo.go, of each of which a process has one; Allocation has AllocateOnce
--     (`allocate_once`), its transaction's body (`assign_task`) and its put-back, its Success and
--     Progress what holds where no call fails; Tasks has StartTask, CompleteTask and GetTask, and
--     its Success;
--     Dependencies has order_dependency_analyzer.go (`infer_recipe_task_deps`), its Soundness what
--     holds of the pairs; Orders has ConfirmOrder (`confirm_order`), its Links what holds of the
--     drafted links; Rows which dependency rows the links get; Created, Linked, Recalculated,
--     Counted, Announced, Placed and Confirmed follow a confirmation step by step.
--   Queue: internal/queue/inmemory_queue.go, its map as an association list; Order, Contents,
--     Listing and Distinct have what holds of it. Queue/Redis is redis_queue.go over the commands of
--     a server (`SortedSets`), and its Agreement compares the two queues.
--   Outbox: internal/outbox/dispatcher.go. Outbox has backoff in 64-bit arithmetic and
--     Outbox/Dispatch DispatchOnce (`dispatch_once`), Outbox/Loop the loop of Run (`run`); Delay,
--     Published, Progress, Batches and Drained have what holds of them.
--   Temporal: internal/orchestrator (`handle_event`) and CompleteTaskByIDActivity of
--     internal/temporalx/allocation_workflow.go; Temporal/Repeated has what holds of it.
--     Temporal/Workflows has the other activities, the two workflows over an `Engine` that runs
--     activities and sleeps, and the choice of topic_bridge.go (`start_of`);
--     its Announced relates a start to its event, and its Completion the event to the completion
--     of the task. Temporal/Bridge hands the events of a topic to the client
--     (`run_topic_consumer`), and Temporal/Worker is what worker.go registers.
--   Messaging: internal/messaging. Messaging/Kafka is kafka_topic.go: the configuration, Publish
--     (`publish_event`), Consume over the reads so far (`consume`) and Close; Messaging/InMemory is
--     topic.go, each select one step.
--   Api: internal/api, a handler for each method of the controller and the table of routes.
--   Config: internal/config/env.go.
--   Programs: cmd. Programs itself has the settings that are read; Postgres is
--     internal/db/postgres.go (`open_postgres`), Main the start of cmd/api, cmd/temporal-worker and
--     cmd/topic-consumer (`api_main`, `temporal_worker_main`, `topic_consumer_main`) up to what the
--     program then runs with, or the text of log.Fatalf; Tail is the loop of cmd/kafka-tail.
--     Opening, Starting and Consuming have what holds of them.
--   Consistency: what sequences of requests keep. Requests reduces it to the bodies of the
--     transactions; Balance counts the tasks that hold a resource; Capacity and Lifecycle prove
--     their invariants for each body, and their Runs for any sequence. Board is an abstract
--     kitchen of tasks, dependencies and orders with its moves: Effects and Bodies relate each
--     transaction to a move, Counts, Dependencies, Recorded and Orders prove invariants of moves,
--     Runs carries them to the service, Serving follows a task from its assignment to its
--     completion, Placing and Confirming add the tasks of a new order. Sequences shows that requests
--     draw no id, and History joins requests and confirmed orders. AutoComplete lets requests run
--     while a workflow sleeps.
--   Base: numbers, lists, tables, texts and decimal numbers shared by all. Samples, Tests: a small
--     kitchen and runs of it.
--
-- Parameters. Postgres, the queue's server, the clock and float64 are not code of the repository.
-- `Services` holds them: which calls fail and with which text, which rows SKIP LOCKED passes over,
-- the order of rows that a query leaves open, the clock at each call, the arithmetic of float64
-- and NUMERIC, the queue's operations and the JSON of an event. The Temporal client, the Kafka
-- client, the Redis commands, os.Getenv and what net/http decodes are arguments of the definitions
-- that use them. The dispatcher takes json.Unmarshal as an argument, and its publisher is a call
-- that may fail. Theorems on order take the laws of numbers (`IsTotal`, `IsOrdered`), which
-- float64 has but for NaN.
--
-- Bounds. Ids, capacities, counts and step orders are natural numbers of any size: GREATEST(x, 0)
-- keeps the counts from being negative and is written out; a negative capacity or step order,
-- which the schema would take, and the overflow of an INTEGER column are outside the model.
-- Instants are nanoseconds since the epoch. Loops are structural; the three attempts of Publish
-- and Consume count down from 3, as the source counts up to it. The seconds that a task took are an
-- exact quotient, where the source truncates a float64. TrimSpace and ToLower are those of
-- ASCII texts. A range over a Go map visits the entries in the order of the list that stands for
-- the map, which may be any.
--
-- Concurrency. A request's transactions take their rows FOR UPDATE; they are modelled as running
-- one after another, in any order of requests and with any failures between them. A staff member
-- that FindEligibleStaff reads without a lock cannot change before it is locked, therefore. A COMMIT
-- that reports an error has rolled its transaction back: that it was carried out, and only its answer
-- was lost, is outside the model.
--
-- ConfirmOrder is not one of the requests, since an error of it may leave an order half placed. A
-- `History` has the confirmations that succeed and those that are refused before a write between
-- the requests.
--
-- Not modelled: what Temporal does with a workflow, the start-to-close timeouts that it acts on
-- among it; http.ListenAndServe, deferred closes and interrupts of the programs, the log level of
-- the database. The operations take the fields of the service and of the repository as arguments.
pub mod Api
pub mod Base
pub mod Config
pub mod Models
pub mod Messaging
pub mod Runtime
pub mod Repository
pub mod Application
pub mod Queue
pub mod Outbox
pub mod Consistency
pub mod Programs
pub mod Samples
pub mod Tests
pub mod Temporal
