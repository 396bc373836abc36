-- ===== src/Queue/Redis.antt =====
-- internal/queue/redis_queue.go: the ready queue as a sorted set of a Redis server. The client is an
-- argument, `SortedSets`.
pub mod Agreement
use kitchen_ops.Base.{ℕ, ℤ, Option, none, some, List, [], ◌∷◌, Bytes, codes, leb, if◌then◌else◌}
use kitchen_ops.Base.Text.{trim_space}
use kitchen_ops.Config.{has_text}
use kitchen_ops.Runtime.{Result, ok, err, driver}

-- The member of a redis.Z is of any type.
pub data Member : Type 0 where
  text : Bytes → Member
  another_type : Member

-- The commands of the server that the queue uses, on the state `Z` of its sorted sets.
pub record SortedSets (F Z : Type 0) : Type 0 where
  pub zadd : Bytes → F → Bytes → Z → Z
  pub zpopmin : Bytes → ℕ → Z → List (Member × F) × Z
  pub zcard : Bytes → Z → ℕ

pub record RedisConfig : Type 0 where
  pub addr : Bytes
  pub password : Bytes
  pub db : ℤ
  pub key : Bytes

pub record RedisReadyQueue : Type 0 where
  pub key : Bytes

abbrev pub or_default_key : Bytes → Bytes
or_default_key key = if has_text (trim_space key) then key else codes "tasks:pending"

abbrev pub connected : Option Bytes → RedisReadyQueue → Result RedisReadyQueue
connected none q = ok q
connected (some e) q = err (driver e)

-- `ping` is what the server answers the first PING with.
unfoldable pub new_redis_ready_queue : Option Bytes → RedisConfig → Result RedisReadyQueue
new_redis_ready_queue ping cfg =
    if has_text (trim_space cfg.addr)
    then connected ping (record { key = or_default_key cfg.key })
    else err (driver (codes "redis address is required"))

-- The loop over the items.
abbrev pub add_member : Member → List Bytes → List Bytes
add_member (text id) ids = id ∷ ids
add_member another_type ids = ids

unfoldable pub member_ids : {F : Type 0} → List (Member × F) → List Bytes
member_ids [] = []
member_ids (item ∷ items) = add_member item.0 (member_ids items)

-- The operations where the command does not fail.
module _ {F Z : Type 0} (redis : SortedSets F Z) (q : RedisReadyQueue) where
  unfoldable pub enqueue : Bytes → F → Z → Z
  enqueue task_id score z = redis.zadd q.key score task_id z

  unfoldable pub pop_top_n : ℕ → Z → List Bytes × Z
  pop_top_n n z =
      let popped = redis.zpopmin q.key n z in
      if leb n 0 then ([], z) else (member_ids popped.0, popped.1)

  unfoldable pub len : Z → ℕ
  len z = redis.zcard q.key z
