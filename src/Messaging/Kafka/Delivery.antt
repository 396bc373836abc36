-- ===== src/Messaging/Kafka/Delivery.antt =====
-- What Consume hands to the handler, and how often.
use kitchen_ops.Base.{
  ℕ, suc, ◌≡◌, refl, Bool, false, Option, none, some, List, [], ◌∷◌, ◌++◌, Bytes, append-nil,
  append_assoc, ◌∙◌, sym, subst,
}
use kitchen_ops.Models.{DomainEvent}
use kitchen_ops.Messaging.Kafka.{
  Read, Consuming, KafkaTopic, ReaderConfig, after_handler, handle_attempts, after_event,
  after_message, consume_reads, consume,
}

-- `Delivered events log`: the log has the events in their order, each of them from one to three
-- times.
pub data Delivered : List DomainEvent → List DomainEvent → Type 0 where
  nothing : Delivered [] []
  once :
      {e : DomainEvent} {events log : List DomainEvent}
      → Delivered events log
      → Delivered (e ∷ events) (e ∷ log)
  twice :
      {e : DomainEvent} {events log : List DomainEvent}
      → Delivered events log
      → Delivered (e ∷ events) (e ∷ e ∷ log)
  thrice :
      {e : DomainEvent} {events log : List DomainEvent}
      → Delivered events log
      → Delivered (e ∷ events) (e ∷ e ∷ e ∷ log)

-- The events of the messages that can be read.
abbrev pub add_readable : Option DomainEvent → List DomainEvent → List DomainEvent
add_readable none events = events
add_readable (some e) events = e ∷ events

abbrev pub readable : (Bytes → Option DomainEvent) → List Bytes → List DomainEvent
readable unmarshal [] = []
readable unmarshal (value ∷ values) = add_readable (unmarshal value) (readable unmarshal values)

abbrev pub messages : List Bytes → List Read
messages [] = []
messages (value ∷ values) = Read.message value ∷ messages values

module _ {S : Type 0} (handler : DomainEvent → S → Option Bytes × S) where
  -- The handler, with a log of its calls.
  abbrev pub logged : DomainEvent → S × List DomainEvent → Option Bytes × (S × List DomainEvent)
  logged evt (s, log) = ((handler evt s).0, ((handler evt s).1, log ++ evt ∷ []))

-- The consumer waits for the next message, and the log is the old one and then one of `D`.
abbrev Ended :
    {S : Type 0}
    → (List DomainEvent → Type 0)
    → List DomainEvent
    → Consuming × (S × List DomainEvent)
    → Type 0
Ended D log r = (r.0 ≡ Consuming.waiting) × (new : List DomainEvent) × D new × (r.1.1 ≡ log ++ new)

module _ {S : Type 0} (D E : List DomainEvent → Type 0) where
  Ended-map :
      (log : List DomainEvent) (r : Consuming × (S × List DomainEvent))
      → ((new : List DomainEvent) → D new → E new)
      → Ended D log r
      → Ended E log r
  Ended-map log r h (waits, new, d, eq) = (waits, new, h new d, eq)

Ended-shift :
    {S : Type 0} (E : List DomainEvent → Type 0) (e : DomainEvent) (log : List DomainEvent)
    (r : Consuming × (S × List DomainEvent))
    → Ended (λ new. E (e ∷ new)) (log ++ e ∷ []) r
    → Ended E log r
Ended-shift E e log r (waits, new, d, eq) = (waits, e ∷ new, d, eq ∙ append_assoc log (e ∷ []) new)

abbrev live : {S : Type 0} → S → Bool
live s = false

module _ {S : Type 0} (unmarshal : Bytes → Option DomainEvent)
    (handler : DomainEvent → S → Option Bytes × S) where
  abbrev attempts :
      ℕ
      → DomainEvent
      → S × List DomainEvent
      → (S × List DomainEvent → Consuming × (S × List DomainEvent))
      → Consuming × (S × List DomainEvent)
  attempts n evt s more =
      after_event unmarshal live (logged handler)
        (handle_attempts unmarshal live (logged handler) n evt s) more

  -- One call of the handler.
  attempt :
      (n : ℕ) (evt : DomainEvent) (s : S) (log : List DomainEvent)
      (more : S × List DomainEvent → Consuming × (S × List DomainEvent))
      (E : List DomainEvent → Type 0)
      → ((s' : S) → Ended (λ new. E (evt ∷ new)) (log ++ evt ∷ []) (more (s', log ++ evt ∷ [])))
      → ((s' : S)
          → Ended
              (λ new. E (evt ∷ new))
              (log ++ evt ∷ [])
              (attempts n evt (s', log ++ evt ∷ []) more))
      → Ended E log (attempts (suc n) evt (s, log) more)
  unfolding handle_attempts
  attempt n evt s log more E handled again = go (handler evt s)
    where
      go :
          (o : Option Bytes × S)
          → Ended E log (
              after_event unmarshal live
                (logged handler)
                (after_handler unmarshal live
                  (logged handler)
                  (o.0, (o.1, log ++ evt ∷ []))
                  (handle_attempts unmarshal live (logged handler) n evt))
                more)
      go (none, s') = Ended-shift E evt log (more (s', log ++ evt ∷ [])) (handled s')
      go (some e, s') = Ended-shift E evt log (attempts n evt (s', log ++ evt ∷ []) more) (again s')

  -- An event is tried once, twice or three times, and then the loop goes on.
  tried :
      (evt : DomainEvent) (events : List DomainEvent) (s : S) (log : List DomainEvent)
      (more : S × List DomainEvent → Consuming × (S × List DomainEvent))
      → ((s' : S) (log' : List DomainEvent) → Ended (Delivered events) log' (more (s', log')))
      → Ended (Delivered (evt ∷ events)) log (attempts 3 evt (s, log) more)
  unfolding handle_attempts
  tried evt events s log more h =
      attempt 2 evt s log more (Delivered (evt ∷ events)) (λ s₁. ends _ (λ new. once) s₁ _)
        λ s₁.
          attempt 1 evt s₁ _ more _ (λ s₂. ends _ (λ new. twice) s₂ _)
            λ s₂.
              attempt 0 evt s₂ _ more _ (λ s₃. ends _ (λ new. thrice) s₃ _)
                (λ s₃. ends _ (λ new. thrice) s₃ _)
    where
      ends :
          (E : List DomainEvent → Type 0)
          → ((new : List DomainEvent) → Delivered events new → E new)
          → (s' : S) (log' : List DomainEvent) → Ended E log' (more (s', log'))
      ends E f s' log' = Ended-map (Delivered events) E log' (more (s', log')) f (h s' log')

  message_delivers :
      (o : Option DomainEvent) (events : List DomainEvent) (s : S) (log : List DomainEvent)
      (more : S × List DomainEvent → Consuming × (S × List DomainEvent))
      → ((s' : S) (log' : List DomainEvent) → Ended (Delivered events) log' (more (s', log')))
      → Ended
          (Delivered (add_readable o events))
          log
          (after_message unmarshal live (logged handler) o more (s, log))
  message_delivers none events s log more h = h s log
  message_delivers (some evt) events s log more h = tried evt events s log more h

  consume_reads_delivers :
      (values : List Bytes) (s : S) (log : List DomainEvent)
      → Ended
          (Delivered (readable unmarshal values))
          log
          (consume_reads unmarshal live (logged handler) (messages values) (s, log))
  unfolding consume_reads
  consume_reads_delivers [] s log = (refl, [], Delivered.nothing, sym (append-nil log))
  consume_reads_delivers (value ∷ values) s log =
      message_delivers (unmarshal value) (readable unmarshal values) s log _
        (consume_reads_delivers values)

  -- While the context is not cancelled and no read fails, Consume of a topic with a reader does not
  -- return, and calls the handler from one to three times on each event that can be read, in the
  -- order of the messages: an event whose handler keeps failing, and a payload that cannot be read,
  -- stop none of the later ones.
  pub consume_delivers :
      (t : KafkaTopic) (reader : ReaderConfig) (values : List Bytes) (s : S)
      → t.reader ≡ some reader
      → ((consume unmarshal (λ _. false) (logged handler) t (messages values) (s, [])).0
          ≡ Consuming.waiting)
        × Delivered
            (readable unmarshal values)
            (consume unmarshal (λ _. false) (logged handler) t (messages values) (s, [])).1.1
  unfolding consume
  consume_delivers t reader values s h = rw h (delivered (consume_reads_delivers values s []))
    where
      delivered :
          Ended
            (Delivered (readable unmarshal values))
            []
            (consume_reads unmarshal live (logged handler) (messages values) (s, []))
          → ((consume_reads unmarshal live (logged handler) (messages values) (s, [])).0
              ≡ Consuming.waiting)
            × Delivered
                (readable unmarshal values)
                (consume_reads unmarshal live (logged handler) (messages values) (s, [])).1.1
      delivered (waits, new, d, eq) = (waits, subst (Delivered _) (sym eq) d)
