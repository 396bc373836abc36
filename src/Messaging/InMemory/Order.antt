-- ===== src/Messaging/InMemory/Order.antt =====
-- The topic in memory keeps the order of the events, and loses none.
use kitchen_ops.Base.{
  suc, ◌≡◌, ◌≤◌, refl, ◌∙◌, ap, sym, Bool, true, false, Bool-cases, inl, inr, Option, none, some,
  List, [], ◌∷◌, ◌++◌, append_assoc, Bytes, ℤ, length, ltb, arith,
}
use kitchen_ops.Models.{DomainEvent}
use kitchen_ops.Messaging.InMemory.{
  InMemoryTopic, new_in_memory_topic, Sending, send, publish, Taking, after_handler, receive,
  consume_next,
}

-- A call of Publish, or an iteration of a Consume.
pub data Use : Type 0 where
  publishes : Option Bytes → Bool → DomainEvent → Use
  consumes : Option Bytes → Bool → Use

-- The topic, the events whose Publish has returned nil, and those that the handler was called on.
pub record Traffic : Type 0 where
  pub topic : InMemoryTopic
  pub accepted : List DomainEvent
  pub handled : List DomainEvent

abbrev pub after_send : DomainEvent → Traffic → Sending → Traffic
after_send event u Sending.send_waits = u
after_send event u (Sending.sent none t) = record u {
  topic = t;
  accepted = u.accepted ++ event ∷ [];
}
after_send event u (Sending.sent (some e) t) = record u { topic = t }

abbrev pub after_take : Traffic → Taking (List DomainEvent) → Traffic
after_take u Taking.take_waits = u
after_take u (Taking.taken t log) = record u { topic = t; handled = log }
after_take u (Taking.returns e t log) = record u { topic = t; handled = log }

-- `answer` is what the handler answers, given what it was called on before.
module _ (answer : DomainEvent → List DomainEvent → Option Bytes) where
  abbrev pub logs : DomainEvent → List DomainEvent → Option Bytes × List DomainEvent
  logs event log = (answer event log, log ++ event ∷ [])

  abbrev pub use_topic : Traffic → Use → Traffic
  use_topic u (publishes ctx_err takes_done event) =
      after_send event u (publish ctx_err takes_done event u.topic)
  use_topic u (consumes ctx_err takes_done) =
      after_take u (consume_next logs ctx_err takes_done u.topic u.handled)

  unfoldable pub use_all : Traffic → List Use → Traffic
  use_all u [] = u
  use_all u (x ∷ xs) = use_all (use_topic u x) xs

-- What was handled, and then what the channel holds, are the events accepted; the channel holds
-- no more than its buffer.
pub record InOrder (u : Traffic) : Type 0 where
  pub order : u.handled ++ u.topic.events ≡ u.accepted
  pub bound : length u.topic.events ≤ u.topic.buffer

length-send :
    (events : List DomainEvent) (event : DomainEvent)
    → length (events ++ event ∷ []) ≡ suc (length events)
length-send [] event = refl
length-send (x ∷ events) event = omega (arith, length-send events event)

module _ (answer : DomainEvent → List DomainEvent → Option Bytes) (u : Traffic)
    (h : InOrder u) where
  sends :
      (event : DomainEvent)
      → ltb (length u.topic.events) u.topic.buffer ≡ true
      → InOrder (after_send event u (Sending.sent none (send event u.topic)))
  sends event room = record {
    order =
        sym (append_assoc u.handled u.topic.events (event ∷ []))
        ∙ ap (λ events. events ++ event ∷ []) h.order;
    bound = rw (length-send u.topic.events event) (ground arith);
  }

  publishes-InOrder :
      (ctx_err : Option Bytes) (takes_done : Bool) (event : DomainEvent)
      → InOrder (after_send event u (publish ctx_err takes_done event u.topic))
  unfolding publish
  publishes-InOrder none takes_done event =
      elim (Bool-cases (ltb (length u.topic.events) u.topic.buffer)) [
        | inl room ↦ rw room (sends event room)
        | inr full ↦ rw full h
      ]
  publishes-InOrder (some e) true event = record { order = h.order; bound = h.bound }
  publishes-InOrder (some e) false event =
      elim (Bool-cases (ltb (length u.topic.events) u.topic.buffer)) [
        | inl room ↦ rw room (sends event room)
        | inr full ↦ rw full (record { order = h.order; bound = h.bound })
      ]

  handles :
      (event : DomainEvent) (rest : List DomainEvent)
      → u.topic.events ≡ event ∷ rest
      → InOrder (
          after_take u
            (after_handler (record (u.topic) { events = rest }) (logs answer event u.handled)))
  handles event rest e = go (answer event u.handled)
    where
      order : (u.handled ++ event ∷ []) ++ rest ≡ u.accepted
      order =
          append_assoc u.handled (event ∷ []) rest
          ∙ (ap (λ events. u.handled ++ events) (sym e) ∙ h.order)

      bound : length rest ≤ u.topic.buffer
      bound = omega (arith, h.bound, ap length e)

      go :
          (o : Option Bytes)
          → InOrder (
              after_take u
                (after_handler (record (u.topic) { events = rest }) (o, u.handled ++ event ∷ [])))
      go none = record { order = order; bound = bound }
      go (some text) = record { order = order; bound = bound }

  consumes-InOrder :
      (ctx_err : Option Bytes) (takes_done : Bool)
      → InOrder (after_take u (consume_next (logs answer) ctx_err takes_done u.topic u.handled))
  unfolding consume_next
  consumes-InOrder ctx_err takes_done = go ctx_err takes_done u.topic.events refl
    where
      go :
          (ctx_err' : Option Bytes) (done : Bool) (events : List DomainEvent)
          → u.topic.events ≡ events
          → InOrder (after_take u (receive (logs answer) ctx_err' done events u.topic u.handled))
      go none done [] e = h
      go (some text) done [] e = record { order = h.order; bound = h.bound }
      go (some text) true (event ∷ rest) e = record { order = h.order; bound = h.bound }
      go none done (event ∷ rest) e = handles event rest e
      go (some text) false (event ∷ rest) e = handles event rest e

use_topic-InOrder :
    (answer : DomainEvent → List DomainEvent → Option Bytes) (u : Traffic) (x : Use)
    → InOrder u
    → InOrder (use_topic answer u x)
use_topic-InOrder answer u (publishes ctx_err takes_done event) h =
    publishes-InOrder answer u h ctx_err takes_done event
use_topic-InOrder answer u (consumes ctx_err takes_done) h =
    consumes-InOrder answer u h ctx_err takes_done

use_all_keeps :
    (answer : DomainEvent → List DomainEvent → Option Bytes) (u : Traffic) (xs : List Use)
    → InOrder u
    → InOrder (use_all answer u xs)
unfolding use_all
use_all_keeps answer u [] h = h
use_all_keeps answer u (x ∷ xs) h =
    use_all_keeps answer (use_topic answer u x) xs (use_topic-InOrder answer u x h)

-- In any interleaving of Publish calls and iterations of Consume on a new topic in memory, with
-- any contexts, choices of select and answers of the handler, the events that the handler was
-- called on and then those in the channel are the events whose Publish returned nil, in that order:
-- none is lost, doubled or overtaken. The channel never holds more than its buffer.
pub use_all-InOrder :
    (answer : DomainEvent → List DomainEvent → Option Bytes) (buffer : ℤ) (xs : List Use)
    → InOrder (
        use_all answer
          (record { topic = new_in_memory_topic buffer; accepted = []; handled = [] })
          xs)
unfolding new_in_memory_topic
use_all-InOrder answer buffer xs =
    use_all_keeps answer _ xs (record { order = refl; bound = omega arith })
