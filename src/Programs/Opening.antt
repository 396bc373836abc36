-- ===== src/Programs/Opening.antt =====
-- What the programs open is accepted, in every environment.
use kitchen_ops.Base.{
  ℕ, ◌≡◌, ◌≢◌, refl, Bool, true, false, Bool-cases, inl, inr, none, some, List, [], ◌∷◌, Bytes,
  codes, ◌==◌, if◌then◌else◌, subst,
}
use kitchen_ops.Base.Text.{trim_space, split, add_to_first}
use kitchen_ops.Base.Text.Trimmed.{trim_space_idem}
use kitchen_ops.Config.{has_text, env_or_default, env_csv}
use kitchen_ops.Runtime.{ok}
use kitchen_ops.Queue.Redis.{RedisConfig, new_redis_ready_queue}
use kitchen_ops.Messaging.Kafka.{
  KafkaConfig, KafkaTopic, ReaderConfig, reader_config, open_topic, check_topic, new_kafka_topic,
}
use kitchen_ops.Programs.{redis_config, publisher_config, consumer_config}

env_or_default-has_text :
    (getenv : Bytes → Bytes) (key fallback : Bytes)
    → has_text (trim_space fallback) ≡ true
    → has_text (trim_space (env_or_default getenv key fallback)) ≡ true
unfolding env_or_default
env_or_default-has_text getenv key fallback h =
    elim (Bool-cases (has_text (trim_space (getenv key)))) [
      | inl set ↦ rw (set, trim_space_idem (getenv key)) set
      | inr unset ↦ rw unset h
    ]

-- A topic with a broker and a name opens.
check_topic_opens :
    (brokers : List Bytes) (cfg : KafkaConfig)
    → brokers ≢ []
    → has_text (trim_space cfg.topic) ≡ true
    → check_topic brokers cfg ≡ ok (open_topic cfg)
check_topic_opens [] cfg some_broker named = absurd (some_broker refl)
check_topic_opens (b ∷ brokers) cfg some_broker named = rw named refl

config_of :
    {A : Type 0} (b : Bool) (a c : A) → (if b then some a else none) ≡ some c → b ≡ true × (a ≡ c)
config_of true a c e = (refl, cc e)
config_of false a c e = cc e

split_nonempty : (sep : ℕ) (text : Bytes) → split sep text ≢ []
split_nonempty sep [] = λ e. cc
split_nonempty sep (c ∷ text) = elim (Bool-cases (c == sep)) [
  | inl cut ↦ rw cut (λ e. cc)
  | inr within ↦ rw within (added (split sep text))
]
  where
    added : (parts : List Bytes) → add_to_first c parts ≢ []
    added [] = λ e. cc
    added (p ∷ parts) = λ e. cc

module _ (getenv : Bytes → Bytes) where
  -- Whatever the environment, the Redis queue that is asked for has an address and a key: if the
  -- server answers the first PING, the queue opens, with that key.
  pub redis_config_opens :
      (cfg : RedisConfig)
      → redis_config getenv ≡ some cfg
      → new_redis_ready_queue none cfg ≡ ok (record { key = cfg.key })
  unfolding redis_config new_redis_ready_queue
  redis_config_opens cfg e =
      let (set, built) = config_of (has_text redis_addr) _ cfg e in
      subst (λ c. new_redis_ready_queue none c ≡ ok (record { key = c.key })) built
        (rw
          (
            trim_space_idem (env_or_default getenv (codes "REDIS_ADDR") []),
            set,
            env_or_default-has_text getenv (codes "REDIS_PENDING_KEY") (codes "tasks:pending") refl,
          )
          refl)
    where
      redis_addr : Bytes
      redis_addr = trim_space (env_or_default getenv (codes "REDIS_ADDR") [])

  -- Whatever the environment, the topic that the API asks for opens, for publishing only.
  pub publisher_config_opens :
      (cfg : KafkaConfig)
      → publisher_config getenv ≡ some cfg
      → (t : KafkaTopic) × (new_kafka_topic cfg ≡ ok t) × (t.reader ≡ none)
  unfolding publisher_config new_kafka_topic
  publisher_config_opens cfg e =
      let (set, built) = config_of (has_text brokers) _ cfg e in
      subst (λ c. (t : KafkaTopic) × (new_kafka_topic c ≡ ok t) × (t.reader ≡ none)) built
        (
          _,
          check_topic_opens (split 44 brokers) _ (split_nonempty 44 brokers) (
              env_or_default-has_text getenv (codes "KAFKA_TOPIC") (codes "kitchen.domain.events")
                refl),
          refl,
        )
    where
      brokers : Bytes
      brokers = trim_space (env_or_default getenv (codes "KAFKA_BROKERS") [])

  -- If a broker is named, the topic of the bridge opens with a reader, as a member of a consumer group.
  pub consumer_config_opens :
      env_csv getenv (codes "KAFKA_BROKERS") (codes "localhost:9092") ≢ []
      → (t : KafkaTopic) × (reader : ReaderConfig) × (new_kafka_topic (consumer_config getenv)
          ≡ ok t)
        × (t.reader ≡ some reader)
        × (has_text (trim_space reader.group_id) ≡ true)
  unfolding consumer_config new_kafka_topic
  consumer_config_opens some_broker = (
    open_topic (consumer_config getenv),
    reader_config (consumer_config getenv),
    check_topic_opens _ (consumer_config getenv) some_broker
        (env_or_default-has_text getenv (codes "KAFKA_TOPIC") (codes "kitchen.domain.events") refl),
    rw grouped refl,
    rw grouped grouped,
  )
    where
      grouped : has_text (trim_space (consumer_config getenv).group_id) ≡ true
      grouped =
          env_or_default-has_text getenv (codes "KAFKA_GROUP_ID") (codes "kitchen-topic-consumer")
            refl
