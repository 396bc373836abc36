-- ===== src/Programs/Main.antt =====
-- cmd/api, cmd/temporal-worker and cmd/topic-consumer: what the programs run with once they are up,
-- or the text that they end with.
use kitchen_ops.Base.{Option, none, some, ◌++◌, Bytes, codes}
use kitchen_ops.Config.{env_or_default}
use kitchen_ops.Runtime.{Result, ok, err}
use kitchen_ops.Application.Orders.{then_ok}
use kitchen_ops.Temporal.{error_text}
use kitchen_ops.Temporal.Worker.{AllocationWorker, start_allocation_worker}
use kitchen_ops.Queue.Redis.{RedisConfig, RedisReadyQueue, new_redis_ready_queue}
use kitchen_ops.Messaging.Kafka.{KafkaConfig, KafkaTopic, new_kafka_topic}
use kitchen_ops.Outbox.{Dispatcher, new_dispatcher}
use kitchen_ops.Programs.{redis_config, publisher_config, consumer_config}
use kitchen_ops.Programs.Postgres.{Gorm, Connection, open_postgres}

-- log.Fatalf, or what the program runs with.
pub data Outcome (A : Type 0) : Type 0 where
  fatal : Bytes → Outcome A
  runs : A → Outcome A

abbrev pub or_fatal : {A B : Type 0} → Bytes → Result A → (A → Outcome B) → Outcome B
or_fatal text (ok a) f = f a
or_fatal text (err e) f = fatal (text ++ error_text e)

-- The queue in memory is none.
abbrev pub open_queue : Option Bytes → Option RedisConfig → Result (Option RedisReadyQueue)
open_queue ping none = ok none
open_queue ping (some cfg) = then_ok (new_redis_ready_queue ping cfg) (λ q. ok (some q))

-- A nil publisher is none.
abbrev pub open_publisher : Option KafkaConfig → Result (Option KafkaTopic)
open_publisher none = ok none
open_publisher (some cfg) = then_ok (new_kafka_topic cfg) (λ t. ok (some t))

-- if publisher != nil { go NewDispatcher(repo, publisher).Run(...) }
abbrev pub dispatcher_for : Option KafkaTopic → Option Dispatcher
dispatcher_for none = none
dispatcher_for (some t) = some new_dispatcher

pub record ApiProgram (D : Type 0) : Type 0 where
  pub connection : Connection D
  pub ready_queue : Option RedisReadyQueue
  pub publisher : Option KafkaTopic
  pub dispatcher : Option Dispatcher
  pub addr : Bytes

pub record WorkerProgram (C D : Type 0) : Type 0 where
  pub client : C
  pub connection : Connection D
  pub ready_queue : Option RedisReadyQueue
  pub worker : AllocationWorker

pub record ConsumerProgram (C : Type 0) : Type 0 where
  pub client : C
  pub topic : KafkaTopic

module _ (getenv : Bytes → Bytes) where
  unfoldable pub pg_dsn : Bytes
  pg_dsn = env_or_default getenv (codes "PG_DSN") (
      codes
        "host=localhost port=5432 user=postgres password=postgres dbname=kangaroo_paw sslmode=disable")

  unfoldable pub temporal_address : Bytes
  temporal_address = env_or_default getenv (codes "TEMPORAL_ADDRESS") (codes "localhost:7233")

  -- `ping` is what the Redis server answers the first PING with.
  unfoldable pub api_main : {D S : Type 0} → Gorm D S → Option Bytes → Outcome (ApiProgram D)
  api_main gorm ping =
      or_fatal (codes "postgres connection failed: ") (open_postgres gorm pg_dsn) λ connection.
        or_fatal (codes "redis queue init failed: ") (open_queue ping (redis_config getenv))
          λ queue.
            or_fatal (codes "kafka topic init failed: ") (open_publisher (publisher_config getenv))
              λ topic. runs (record {
                connection = connection;
                ready_queue = queue;
                publisher = topic;
                dispatcher = dispatcher_for topic;
                addr = env_or_default getenv (codes "HTTP_ADDR") (codes ":8080");
              })

  -- `dial` is client.Dial.
  unfoldable pub temporal_worker_main :
      {C D S : Type 0} → (Bytes → Result C) → Gorm D S → Option Bytes → Outcome (WorkerProgram C D)
  temporal_worker_main dial gorm ping =
      or_fatal (codes "unable to create temporal client: ") (dial temporal_address) λ client.
        or_fatal (codes "postgres connection failed: ") (open_postgres gorm pg_dsn) λ connection.
          or_fatal (codes "redis queue init failed: ") (open_queue ping (redis_config getenv))
            λ queue. runs (record {
              client = client;
              connection = connection;
              ready_queue = queue;
              worker = start_allocation_worker;
            })

  unfoldable pub topic_consumer_main :
      {C : Type 0} → (Bytes → Result C) → Outcome (ConsumerProgram C)
  topic_consumer_main dial =
      or_fatal (codes "unable to create temporal client: ") (dial temporal_address) λ client.
        or_fatal (codes "unable to create kafka topic client: ")
          (new_kafka_topic (consumer_config getenv))
          λ topic. runs (record { client = client; topic = topic })
