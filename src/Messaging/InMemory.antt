-- ===== src/Messaging/InMemory.antt =====
-- internal/messaging/topic.go: the topic in memory, a channel with a buffer. Where both cases of a
-- select are ready, `takes_done` is the runtime's choice; a select none of whose cases is ready
-- waits.
pub mod Order
use kitchen_ops.Base.{
  ℕ, Bool, true, false, Option, none, some, List, [], ◌∷◌, ◌++◌, Bytes, ℤ, pos, negsuc, ltb, length,
  if◌then◌else◌,
}
use kitchen_ops.Models.{DomainEvent}

-- The channel: its buffer's size and the events in it.
pub record InMemoryTopic : Type 0 where
  pub buffer : ℕ
  pub events : List DomainEvent

-- if buffer <= 0 { buffer = 256 }
abbrev pub buffer_or_default : ℤ → ℕ
buffer_or_default (pos n) = if ltb 0 n then n else 256
buffer_or_default (negsuc n) = 256

unfoldable pub new_in_memory_topic : ℤ → InMemoryTopic
new_in_memory_topic buffer = record { buffer = buffer_or_default buffer; events = [] }

pub data Sending : Type 0 where
  send_waits : Sending
  sent : Option Bytes → InMemoryTopic → Sending

abbrev pub send : DomainEvent → InMemoryTopic → InMemoryTopic
send event t = record t { events = t.events ++ event ∷ [] }

-- The first argument is ctx.Err().
unfoldable pub publish : Option Bytes → Bool → DomainEvent → InMemoryTopic → Sending
publish none takes_done event t =
    if ltb (length t.events) t.buffer then Sending.sent none (send event t) else Sending.send_waits
publish (some e) true event t = Sending.sent (some e) t
publish (some e) false event t =
    if ltb (length t.events) t.buffer
    then Sending.sent none (send event t)
    else Sending.sent (some e) t

-- An iteration of Consume's loop: it waits, goes on, or returns.
pub data Taking (S : Type 0) : Type 0 where
  take_waits : Taking S
  taken : InMemoryTopic → S → Taking S
  returns : Option Bytes → InMemoryTopic → S → Taking S

module _ {S : Type 0} where
  abbrev pub after_handler : InMemoryTopic → Option Bytes × S → Taking S
  after_handler t (none, s) = Taking.taken t s
  after_handler t (some e, s) = Taking.returns (some e) t s

  module _ (handler : DomainEvent → S → Option Bytes × S) where
    abbrev pub receive : Option Bytes → Bool → List DomainEvent → InMemoryTopic → S → Taking S
    receive none takes_done [] t s = Taking.take_waits
    receive (some e) takes_done [] t s = Taking.returns (some e) t s
    receive (some e) true (event ∷ rest) t s = Taking.returns (some e) t s
    receive none takes_done (event ∷ rest) t s =
        after_handler (record t { events = rest }) (handler event s)
    receive (some e) false (event ∷ rest) t s =
        after_handler (record t { events = rest }) (handler event s)

    unfoldable pub consume_next : Option Bytes → Bool → InMemoryTopic → S → Taking S
    consume_next ctx_err takes_done t s = receive ctx_err takes_done t.events t s
