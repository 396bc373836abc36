-- ===== src/Tests/Programs.antt =====
-- The theorems about the programs' settings in concrete environments.
use kitchen_ops.Base.{◌≡◌, ◌≢◌, refl, true, some, none, [], Bytes, codes, ◌∷◌, pos}
use kitchen_ops.Base.Text.{parse_int}
use kitchen_ops.Base.Decimal.{parse_uint, format_uint}
use kitchen_ops.Config.{env_or_default, env_int, env_csv, clean_parts}
use kitchen_ops.Runtime.{Result, ok, err, driver}
use kitchen_ops.Queue.Redis.{RedisConfig}
use kitchen_ops.Messaging.Kafka.{Consuming}
use kitchen_ops.Programs.{redis_config}
use kitchen_ops.Programs.Consuming.{due, started, consumed, topic_consumer_main_starts}
use kitchen_ops.Messaging.Kafka.Delivery.{readable}
use kitchen_ops.Temporal.Workflows.{WorkflowStart}
use kitchen_ops.Programs.Postgres.{Gorm, open_postgres}
use kitchen_ops.Programs.Main.{
  Outcome, fatal, runs, ApiProgram, WorkerProgram, ConsumerProgram, pg_dsn, temporal_address,
  api_main, temporal_worker_main, topic_consumer_main,
}
use kitchen_ops.Programs.Starting.{names, api_main_starts}
use kitchen_ops.Programs.Tail.{Message, received, failed, tail}
use kitchen_ops.Models.{DomainEvent, EventType}
use kitchen_ops.Base.{ℕ, suc, List, Option, map, ◌++◌, is_some, ◌&&◌}

-- No variable is set, and every variable has the same value.
abbrev unset : Bytes → Bytes
unset key = []

abbrev always : Bytes → Bytes
always key = codes " b "

a_broker : env_csv unset (codes "KAFKA_BROKERS") (codes "localhost:9092") ≢ []
unfolding env_csv env_or_default clean_parts
a_broker = λ e. cc

-- A payload is read as an event whose type is TASK_STARTED if the payload is empty.
abbrev typed : Bytes → EventType
typed [] = EventType.task_started
typed _ = EventType.task_created

abbrev read_event : Bytes → Option DomainEvent
read_event text = some (record { type = typed text; timestamp = 5; payload = text })

-- The clock of a state is the state, and a start takes one unit of time.
abbrev tick : WorkflowStart → ℕ → ℕ
tick w n = suc n

abbrev greeted : Bytes → Result ℕ
greeted address = ok 3

topic_consumer_main_starts_example :
    (p : ConsumerProgram ℕ) × (topic_consumer_main unset greeted ≡ runs p)
    × ((consumed (λ n. n) tick read_event p ([] ∷ codes "1" ∷ []) 0).0 ≡ Consuming.waiting)
    × (map started (consumed (λ n. n) tick read_event p ([] ∷ codes "1" ∷ []) 0).1.1
        ≡ map due (readable read_event ([] ∷ codes "1" ∷ [])))
topic_consumer_main_starts_example =
    topic_consumer_main_starts (λ n. n) tick read_event unset greeted 3 refl a_broker
      ([] ∷ codes "1" ∷ []) 0

abbrev queue_b : RedisConfig
queue_b = record { addr = codes "b"; password = codes "b"; db = pos 0; key = codes "b" }

asks_for_queue : redis_config always ≡ some queue_b
unfolding redis_config env_or_default env_int parse_int parse_uint
asks_for_queue = refl

-- Handles are numbers, and nothing fails.
abbrev steady : Gorm ℕ ℕ
steady = record { open_dsn = λ dsn. ok 7; sql_db = λ db. ok db; ping = λ sql. none }

steady_opens :
    open_postgres steady (pg_dsn always)
    ≡ ok (record {
      db = 7;
      pool = record { max_idle_conns = 10; max_open_conns = 50; conn_max_lifetime = 1800000000000 };
    })
unfolding open_postgres
steady_opens = refl

api_main_starts_example :
    (a : ApiProgram ℕ) × (api_main always steady none ≡ runs a)
    × (is_some a.ready_queue ≡ names always (codes "REDIS_ADDR"))
    × (is_some a.publisher ≡ names always (codes "KAFKA_BROKERS"))
    × (is_some a.dispatcher ≡ names always (codes "KAFKA_BROKERS"))
api_main_starts_example = api_main_starts always steady _ steady_opens

both_named : names always (codes "REDIS_ADDR") && names always (codes "KAFKA_BROKERS") ≡ true
unfolding env_or_default
both_named = refl

abbrev nobody : Bytes → Result ℕ
nobody address = err (driver address)

abbrev refused : {A : Type 0} → Outcome A
refused = fatal (codes "unable to create temporal client: localhost:7233")

no_client :
    temporal_worker_main unset (λ address. nobody address) steady none
    ≡ refused {A = WorkerProgram ℕ ℕ}
unfolding temporal_worker_main temporal_address env_or_default
no_client = refl

no_consumer :
    topic_consumer_main unset (λ address. nobody address) ≡ refused {A = ConsumerProgram ℕ}
unfolding topic_consumer_main temporal_address env_or_default
no_consumer = refl

abbrev two_messages : List Message
two_messages =
    record { offset = 4; partition = 0; key = codes "k"; value = codes "v" }
    ∷ record { offset = 5; partition = 1; key = []; value = codes "w" }
    ∷ []

abbrev nothing_read : Bytes → Option DomainEvent
nothing_read text = none

tail_runs : tail nothing_read (map received two_messages ++ failed (codes "closed") ∷ []) ≡ (
  (codes "offset=4 key=k raw=v" ++ 10 ∷ []) ∷ (codes "offset=5 key= raw=w" ++ 10 ∷ []) ∷ [],
  some (codes "read error: closed"),
)
unfolding tail format_uint
tail_runs = refl
