-- ===== src/Streams.antt =====
-- internal/adapter/nats/subscriber.go, check_subscriber.go and dlq_consumer.go: what a subscription does
-- with a message of a stream. The decoder of JSON is an argument; the broker is outside.
pub mod Redelivery
use pingcast.Prelude.{
  ℕ, not, if◌then◌else◌, Option, none, some, List, [], ◌∷◌, ◌++◌, Text, text_eq, codes,
}
use pingcast.Error.{Error, Result, ok, err}
use pingcast.Domain.Monitor.{AlertEvent}
use pingcast.Store.World.{World, Env}
use pingcast.Store.Exec.{Exec, pure, attempt, ◌>>◌}
use pingcast.Alerts.Delivery.{Senders, Order, handle}

-- What the broker is told; a delay is in seconds.
pub data Answer : Type 0 where
  ack nak : Answer
  nak_with_delay : ℕ → Answer

abbrev pub answered : Answer → Result (Unit {0}) × World → Answer × World
answered refusal (ok done, w) = (ack, w)
answered refusal (err e, w) = (refusal, w)

-- A malformed message is discarded; a message that is not handled comes again.
unfoldable pub on_message :
    {A : Type 0}
    → Answer
    → (Text → Option A)
    → (A → Exec (Unit {0}))
    → Text
    → World
    → Answer × World
on_message refusal unmarshal handler payload w = elim (unmarshal payload) [
  | none ↦ (ack, w)
  | some a ↦ answered refusal (handler a w)
]

-- `AlertSubscriber.Subscribe`, with the service's `Handle`.
unfoldable pub on_alert :
    (Text → Option AlertEvent) → Env → Senders → Order → Text → World → Answer × World
unfolding on_message
on_alert unmarshal env s order = on_message nak unmarshal (handle env s order)

-- The loop of `pullLoop` over the messages of a batch, which are answered in their order.
unfoldable pub on_tasks :
    (Text → Option ℕ) → (ℕ → Exec (Unit {0})) → List Text → World → List Answer × World
unfolding on_message
on_tasks unmarshal handler [] w = ([], w)
on_tasks unmarshal handler (d ∷ ds) w =
    let (a, w') = on_message (nak_with_delay 5) unmarshal handler d w in
    let (as', w'') = on_tasks unmarshal handler ds w' in (a ∷ as', w'')
