-- ===== src/Programs.antt =====
-- cmd: the queue and the topics that the programs open, by the variables of the environment.
pub mod Opening
pub mod Postgres
pub mod Consuming
pub mod Main
pub mod Starting
pub mod Tail
use kitchen_ops.Base.{
  Bool, true, false, Option, none, some, List, [], ◌∷◌, Bytes, ℤ, pos, negsuc, codes, if◌then◌else◌,
}
use kitchen_ops.Base.Text.{trim_space, split}
use kitchen_ops.Config.{has_text, env_or_default, env_bool, env_int, env_csv}
use kitchen_ops.Queue.Redis.{RedisConfig}
use kitchen_ops.Messaging.Kafka.{KafkaConfig}

module _ (getenv : Bytes → Bytes) where
  -- The Redis queue of the API and of the Temporal worker, if there is one.
  unfoldable pub redis_config : Option RedisConfig
  redis_config =
      let redis_addr = trim_space (env_or_default getenv (codes "REDIS_ADDR") []) in
      if has_text redis_addr
      then some (record {
        addr = redis_addr;
        password = env_or_default getenv (codes "REDIS_PASSWORD") [];
        db = env_int getenv (codes "REDIS_DB") (pos 0);
        key = env_or_default getenv (codes "REDIS_PENDING_KEY") (codes "tasks:pending");
      })
      else none

  -- The topic that the API's dispatcher publishes to, if there is one.
  unfoldable pub publisher_config : Option KafkaConfig
  publisher_config =
      let brokers = trim_space (env_or_default getenv (codes "KAFKA_BROKERS") []) in
      if has_text brokers
      then some (record {
        brokers = split 44 brokers;
        topic = env_or_default getenv (codes "KAFKA_TOPIC") (codes "kitchen.domain.events");
        group_id = [];
        partition = negsuc 0;
        from_beginning = false;
      })
      else none

  -- The topic that the bridge to Temporal consumes.
  unfoldable pub consumer_config : KafkaConfig
  consumer_config = record {
    brokers = env_csv getenv (codes "KAFKA_BROKERS") (codes "localhost:9092");
    topic = env_or_default getenv (codes "KAFKA_TOPIC") (codes "kitchen.domain.events");
    group_id = env_or_default getenv (codes "KAFKA_GROUP_ID") (codes "kitchen-topic-consumer");
    partition = env_int getenv (codes "KAFKA_PARTITION") (negsuc 0);
    from_beginning = env_bool getenv (codes "KAFKA_FROM_BEGINNING") false;
  }
