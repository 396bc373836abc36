-- ===== src/Messaging/Kafka.antt =====
-- internal/messaging/kafka_topic.go
pub mod Publishing
pub mod Delivery
use kitchen_ops.Base.{
  ℕ, zero, suc, ◌+◌, ◌*◌, Bool, true, false, not, ◌||◌, Option, none, some, List, [], ◌∷◌, ◌++◌,
  Bytes, ℤ, pos, negsuc, codes, if◌then◌else◌,
}
use kitchen_ops.Base.Text.{trim_space}
use kitchen_ops.Models.{DomainEvent}
use kitchen_ops.Config.{has_text}
use kitchen_ops.Runtime.{Result, ok, err, driver}

pub record KafkaConfig : Type 0 where
  pub brokers : List Bytes
  pub topic : Bytes
  pub group_id : Bytes
  pub partition : ℤ
  pub from_beginning : Bool

pub data Offset : Type 0 where
  first_offset last_offset : Offset

-- kafka.ReaderConfig; a field that is not set has the zero of its type.
pub record ReaderConfig : Type 0 where
  pub brokers : List Bytes
  pub topic : Bytes
  pub min_bytes : ℕ
  pub max_bytes : ℕ
  pub start_offset : Offset
  pub max_wait_ms : ℕ
  pub group_id : Bytes
  pub partition : ℤ

-- The writer is known by its brokers and its topic, the reader by its configuration.
pub record KafkaTopic : Type 0 where
  pub writer : List Bytes × Bytes
  pub reader : Option ReaderConfig

-- cfg.Partition >= 0
abbrev pub is_partition : ℤ → Bool
is_partition (pos n) = true
is_partition (negsuc n) = false

abbrev pub start_offset : Bool → Offset
start_offset true = Offset.first_offset
start_offset false = Offset.last_offset

abbrev pub reader_config : KafkaConfig → ReaderConfig
reader_config cfg =
    let grouped = has_text (trim_space cfg.group_id) in
    record {
      brokers = cfg.brokers;
      topic = cfg.topic;
      min_bytes = 1;
      max_bytes = 10000000;
      start_offset = start_offset cfg.from_beginning;
      max_wait_ms = 500;
      group_id = if grouped then cfg.group_id else [];
      partition = if grouped then pos 0 else cfg.partition;
    }

abbrev pub open_topic : KafkaConfig → KafkaTopic
open_topic cfg = record {
  writer = (cfg.brokers, cfg.topic);
  reader =
      if has_text (trim_space cfg.group_id) || is_partition cfg.partition
      then some (reader_config cfg)
      else none;
}

abbrev pub check_topic : List Bytes → KafkaConfig → Result KafkaTopic
check_topic [] cfg = err (driver (codes "at least one kafka broker is required"))
check_topic (broker ∷ brokers) cfg =
    if has_text (trim_space cfg.topic)
    then ok (open_topic cfg)
    else err (driver (codes "kafka topic is required"))

unfoldable pub new_kafka_topic : KafkaConfig → Result KafkaTopic
new_kafka_topic cfg = check_topic cfg.brokers cfg

-- What follows an attempt: `again` is the loop after its error, `slept` what has been slept so far.
abbrev pub after_write :
    Option Bytes → Option Bytes → (Bytes → Option Bytes × ℕ) → ℕ → Option Bytes × ℕ
after_write none ctx_err again slept = (none, slept)
after_write (some e) (some cancelled) again slept = (some cancelled, slept)
after_write (some e) none again slept = again e

-- writes: what WriteMessages answers to each attempt
-- ctx_err: ctx.Err() after each attempt that fails
module _ (writes ctx_err : ℕ → Option Bytes) where
  -- `n` attempts are left. The answer, and the milliseconds slept.
  unfoldable pub publish_attempts : (n attempt : ℕ) → Bytes → ℕ → Option Bytes × ℕ
  publish_attempts zero attempt last_err slept =
      (some (codes "publish failed after retries: " ++ last_err), slept)
  publish_attempts (suc n) attempt last_err slept =
      after_write (writes attempt) (ctx_err attempt)
        (λ e. publish_attempts n (attempt + 1) e (slept + attempt * 150)) slept

  -- The argument is json.Marshal's error.
  unfoldable pub publish_event : Option Bytes → Option Bytes × ℕ
  publish_event (some e) = (some e, 0)
  publish_event none = publish_attempts 3 1 [] 0

-- What ReadMessage returns.
pub data Read : Type 0 where
  message : Bytes → Read
  read_failed : Bytes → Read

-- How the loop over the attempts ends.
pub data Handling : Type 0 where
  was_handled was_cancelled was_dropped : Handling

-- How Consume stands after the reads: it waits for the next, or has returned.
pub data Consuming : Type 0 where
  waiting : Consuming
  returned : Option Bytes → Consuming

-- unmarshal: json.Unmarshal
-- cancelled: ctx.Err() != nil
-- handler: what the handler does to the state `S` of the program, and its error
module _ {S : Type 0} (unmarshal : Bytes → Option DomainEvent) (cancelled : S → Bool)
    (handler : DomainEvent → S → Option Bytes × S) where
  -- What follows a call of the handler, where `again` is the rest of the loop.
  abbrev pub after_handler : Option Bytes × S → (S → Handling × S) → Handling × S
  after_handler (none, s) again = (Handling.was_handled, s)
  after_handler (some e, s) again =
      let rest = again s in if cancelled s then (Handling.was_cancelled, s) else rest

  unfoldable pub handle_attempts : ℕ → DomainEvent → S → Handling × S
  handle_attempts zero evt s = (Handling.was_dropped, s)
  handle_attempts (suc n) evt s = after_handler (handler evt s) (handle_attempts n evt)

  -- The end of the outer loop's body, where `more` is the rest of the loop.
  abbrev pub after_event : Handling × S → (S → Consuming × S) → Consuming × S
  after_event (Handling.was_cancelled, s) more = (Consuming.returned none, s)
  after_event (Handling.was_handled, s) more = more s
  after_event (Handling.was_dropped, s) more = more s

  abbrev pub after_message : Option DomainEvent → (S → Consuming × S) → S → Consuming × S
  after_message none more s = more s
  after_message (some evt) more s = after_event (handle_attempts 3 evt s) more

  -- The loop over the messages, for the reads so far.
  unfoldable pub consume_reads : List Read → S → Consuming × S
  consume_reads [] s = (Consuming.waiting, s)
  consume_reads (Read.read_failed e ∷ reads) s =
      (Consuming.returned (if cancelled s then none else some e), s)
  consume_reads (Read.message value ∷ reads) s =
      after_message (unmarshal value) (consume_reads reads) s

  abbrev pub consume_from : Option ReaderConfig → List Read → S → Consuming × S
  consume_from none reads s =
      (Consuming.returned (some (codes "kafka reader is not configured")), s)
  consume_from (some reader) reads s = consume_reads reads s

  unfoldable pub consume : KafkaTopic → List Read → S → Consuming × S
  consume t reads s = consume_from t.reader reads s

-- firstErr, after a call that may fail.
abbrev pub first_err : Option Bytes → Option Bytes → Option Bytes
first_err none e = e
first_err (some first) e = some first

-- The arguments are what the reader's and the writer's Close answer.
unfoldable pub close : KafkaTopic → Option Bytes → Option Bytes → Option Bytes
close t reader_answer writer_answer = elim t.reader [
  | none ↦ writer_answer
  | some reader ↦ first_err reader_answer writer_answer
]
