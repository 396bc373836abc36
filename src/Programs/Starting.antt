-- ===== src/Programs/Starting.antt =====
-- The programs start, in every environment.
use kitchen_ops.Base.{
  ◌≡◌, refl, sym, ap, ◌∙◌, Bool, true, false, Option, none, some, is_some, Option-cases, inl, inr,
  [], Bytes, codes, if◌then◌else◌,
}
use kitchen_ops.Base.Text.{trim_space}
use kitchen_ops.Config.{has_text, env_or_default}
use kitchen_ops.Runtime.{ok}
use kitchen_ops.Queue.Redis.{RedisReadyQueue, new_redis_ready_queue}
use kitchen_ops.Messaging.Kafka.{KafkaTopic}
use kitchen_ops.Programs.{redis_config, publisher_config}
use kitchen_ops.Programs.Opening.{redis_config_opens, publisher_config_opens}
use kitchen_ops.Programs.Postgres.{Gorm, Connection, open_postgres}
use kitchen_ops.Programs.Main.{
  ApiProgram, runs, open_queue, open_publisher, dispatcher_for, pg_dsn, api_main,
}

is_some-if : {A : Type 0} (b : Bool) (a : A) → is_some (if b then some a else none) ≡ b
is_some-if true a = refl
is_some-if false a = refl

module _ (getenv : Bytes → Bytes) where
  -- Whether a variable holds a text.
  abbrev pub names : Bytes → Bool
  names key = has_text (trim_space (env_or_default getenv key []))

  asks_for_queue : is_some (redis_config getenv) ≡ names (codes "REDIS_ADDR")
  unfolding redis_config
  asks_for_queue = is_some-if (names (codes "REDIS_ADDR")) _

  asks_for_topic : is_some (publisher_config getenv) ≡ names (codes "KAFKA_BROKERS")
  unfolding publisher_config
  asks_for_topic = is_some-if (names (codes "KAFKA_BROKERS")) _

  queue_opens :
      (q : Option RedisReadyQueue) × (open_queue none (redis_config getenv) ≡ ok q)
      × (is_some q ≡ names (codes "REDIS_ADDR"))
  queue_opens = elim (Option-cases (redis_config getenv)) [
    | inl absent ↦ (none, rw absent refl, sym (ap is_some absent) ∙ asks_for_queue)
    | inr (cfg, asks) ↦
        let opened : new_redis_ready_queue none cfg ≡ ok (record { key = cfg.key }) =
          redis_config_opens getenv cfg asks in
        (
          some (record { key = cfg.key }),
          rw (asks, opened) refl,
          sym (ap is_some asks) ∙ asks_for_queue,
        )
  ]

  publisher_opens :
      (t : Option KafkaTopic) × (open_publisher (publisher_config getenv) ≡ ok t)
      × (is_some t ≡ names (codes "KAFKA_BROKERS"))
  publisher_opens = elim (Option-cases (publisher_config getenv)) [
    | inl absent ↦ (none, rw absent refl, sym (ap is_some absent) ∙ asks_for_topic)
    | inr (cfg, asks) ↦
        let (t, opened, _) = publisher_config_opens getenv cfg asks in
        (some t, rw (asks, opened) refl, sym (ap is_some asks) ∙ asks_for_topic)
  ]

  is_some-dispatcher_for : (t : Option KafkaTopic) → is_some (dispatcher_for t) ≡ is_some t
  is_some-dispatcher_for none = refl
  is_some-dispatcher_for (some t) = refl

  module _ {D S : Type 0} (gorm : Gorm D S) (connection : Connection D)
      (opened : open_postgres gorm (pg_dsn getenv) ≡ ok connection) where
    -- Whatever the environment, if Postgres opens, and Redis answers the first PING, the API runs:
    -- with the queue in Redis if and only if REDIS_ADDR holds a text, and with a publisher, and a
    -- dispatcher, if and only if KAFKA_BROKERS does.
    pub api_main_starts :
        (a : ApiProgram D) × (api_main getenv gorm none ≡ runs a)
        × (is_some a.ready_queue ≡ names (codes "REDIS_ADDR"))
        × (is_some a.publisher ≡ names (codes "KAFKA_BROKERS"))
        × (is_some a.dispatcher ≡ names (codes "KAFKA_BROKERS"))
    unfolding api_main
    api_main_starts =
        let (q, queue_ok, queue_is) = queue_opens in
        let (t, topic_ok, topic_is) = publisher_opens in
        (
          record {
            connection = connection;
            ready_queue = q;
            publisher = t;
            dispatcher = dispatcher_for t;
            addr = env_or_default getenv (codes "HTTP_ADDR") (codes ":8080");
          },
          rw (opened, queue_ok, topic_ok) refl,
          queue_is,
          topic_is,
          is_some-dispatcher_for t ∙ topic_is,
        )
