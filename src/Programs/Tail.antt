-- ===== src/Programs/Tail.antt =====
-- cmd/kafka-tail: the lines that it prints.
use kitchen_ops.Base.{ℕ, true, Option, none, some, List, [], ◌∷◌, ◌++◌, Bytes, pos, codes}
use kitchen_ops.Base.Decimal.{format_uint}
use kitchen_ops.Models.{DomainEvent, event_type_text}
use kitchen_ops.Config.{env_or_default, env_bool, env_csv}
use kitchen_ops.Messaging.Kafka.{ReaderConfig, start_offset}

pub record Message : Type 0 where
  pub offset : ℕ
  pub partition : ℕ
  pub key : Bytes
  pub value : Bytes

-- What ReadMessage returns.
pub data TailRead : Type 0 where
  received : Message → TailRead
  failed : Bytes → TailRead

unfoldable pub tail_config : (Bytes → Bytes) → ReaderConfig
tail_config getenv = record {
  brokers = env_csv getenv (codes "KAFKA_BROKERS") (codes "localhost:9092");
  topic = env_or_default getenv (codes "KAFKA_TOPIC") (codes "kitchen.domain.events");
  min_bytes = 1;
  max_bytes = 10000000;
  start_offset = start_offset (env_bool getenv (codes "KAFKA_FROM_BEGINNING") true);
  max_wait_ms = 500;
  group_id = [];
  partition = pos 0;
}

abbrev pub event_line : Message → Option DomainEvent → Bytes
event_line m none =
    codes "offset="
    ++ (format_uint m.offset
        ++ (codes " key=" ++ (m.key ++ (codes " raw=" ++ (m.value ++ 10 ∷ [])))))
event_line m (some e) =
    codes "offset="
    ++ (format_uint m.offset
        ++ (codes " partition="
            ++ (format_uint m.partition
                ++ (codes " key="
                    ++ (m.key
                        ++ (codes " type="
                            ++ (event_type_text e.type
                                ++ (codes " ts="
                                    ++ (format_uint e.timestamp
                                        ++ (codes " payload=" ++ (e.payload ++ 10 ∷ [])))))))))))

-- `unmarshal` is json.Unmarshal of a value, none where it fails.
module _ (unmarshal : Bytes → Option DomainEvent) where
  abbrev pub line : Message → Bytes
  line m = event_line m (unmarshal m.value)

  -- The lines, and the text of log.Fatalf, when so much has been read.
  unfoldable pub tail : List TailRead → List Bytes × Option Bytes
  tail [] = ([], none)
  tail (failed e ∷ reads) = ([], some (codes "read error: " ++ e))
  tail (received m ∷ reads) = (line m ∷ (tail reads).0, (tail reads).1)
