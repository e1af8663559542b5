-- ===== src/Tests/Waiting.antt =====
-- The theorems about the messages that wait for a consumer group, at concrete inputs.
use mq.Base.{ℕ, codes, pos, none, List, [], ◌∷◌, All, ◌≡◌, ◌≢◌, refl, ap, arith}
use mq.Py.Exceptions.{ok}
use mq.Py.Async.{Async}
use mq.Py.Json.{Json, int}
use mq.Client.Codec.RoundTrip.{Stored, message_of}
use mq.Client.Consumer.{consume, round, rounds, Running}
use mq.Client.Consumer.Delivery.Round.{IsSound}
use mq.Client.Consumer.Delivery.{IsUnique}
use mq.Client.Consumer.Delivery.Drain.{rounds_drain, rounds_starve}
use mq.Client.Consumer.Delivery.Loss.{failed_is_lost}
use mq.A2a.Agent.{Agent, new_agent}
use mq.A2a.Dispatch.Headerless.{on_delivery}
use mq.A2a.Dispatch.Starves.{agent_starves}
use mq.Tests.A2a.{sdk}
use mq.Tests.Group.{
  Group, acknowledges, client, delivers, env, fails, handler, nats, number, options, queues, store,
  waiting,
}

abbrev with_ids : List ℕ → Running Group
with_ids ids = consume (record { ids = ids; handled = [] })

ids_differ : (j k : ℕ) → j ≢ k → ◌≢◌ {A = Json} (int (pos j)) (int (pos k))
ids_differ j k ne e = ne (ap number e)

sound : (k : ℕ) → IsSound (store k)
sound k = (tt, omega arith)

three-IsUnique : (i j k : ℕ) → i ≢ j → i ≢ k → j ≢ k → IsUnique (store i ∷ store j ∷ store k ∷ [])
three-IsUnique i j k p q r =
    ((ids_differ i j p, (ids_differ i k q, tt)), ((ids_differ j k r, tt), (tt, tt)))

three-IsSound : (i j k : ℕ) → All IsSound (store i ∷ store j ∷ store k ∷ [])
three-IsSound i j k = (sound i, (sound j, (sound k, tt)))

-- Three messages, at most two of which are fetched at once, in two rounds.
rounds_drain_example :
    ((rounds env client options handler none 2 (with_ids (1 ∷ 3 ∷ 4 ∷ []))).0 ≡ ok tt)
    × (waiting (rounds env client options handler none 2 (with_ids (1 ∷ 3 ∷ 4 ∷ []))).1.net ≡ [])
    × ((rounds env client options handler none 2 (with_ids (1 ∷ 3 ∷ 4 ∷ []))).1.net.handled
        ≡ message_of (store 1) ∷ message_of (store 3) ∷ message_of (store 4) ∷ [])
    × ((rounds env client options handler none 2
          (with_ids (1 ∷ 3 ∷ 4 ∷ []))).1.consumer.processed_count
        ≡ 3)
rounds_drain_example =
    rounds_drain env client nats refl options (codes "g") handler none (acknowledges handler) 2
      waiting (λ s. s.handled) fails delivers 2 (with_ids (1 ∷ 3 ∷ 4 ∷ []))
      (three-IsUnique 1 3 4 (omega arith) (omega arith) (omega arith)) (three-IsSound 1 3 4)
      (refl, (refl, (refl, tt))) (omega arith)

-- Two messages that fail, which keep a third one from being fetched.
rounds_starve_example :
    ((rounds env client options handler none 9 (with_ids (2 ∷ 5 ∷ 1 ∷ []))).0 ≡ ok tt)
    × (waiting (rounds env client options handler none 9 (with_ids (2 ∷ 5 ∷ 1 ∷ []))).1.net
        ≡ store 2 ∷ store 5 ∷ store 1 ∷ [])
    × ((rounds env client options handler none 9
          (with_ids (2 ∷ 5 ∷ 1 ∷ []))).1.consumer.processed_count
        ≡ 0)
rounds_starve_example =
    rounds_starve env client nats refl options (codes "g") handler none (acknowledges handler) 2
      waiting (λ s. s.handled) fails delivers 9 (with_ids (2 ∷ 5 ∷ 1 ∷ []))
      (three-IsUnique 2 5 1 (omega arith) (omega arith) (omega arith)) (three-IsSound 2 5 1)
      (refl, (refl, tt))

-- A message that fails, and a later one of its batch that does not.
failed_is_lost_example :
    All
      (λ (m : Stored). int (pos 2) ≢ m.id)
      (waiting (round env client options handler none (with_ids (2 ∷ 3 ∷ 4 ∷ []))).1.net)
failed_is_lost_example =
    failed_is_lost env client nats refl options (codes "g") handler none (acknowledges handler) 2
      waiting (λ s. s.handled) fails delivers (with_ids (2 ∷ 3 ∷ 4 ∷ [])) [] [] [] (store 2)
      (store 3) (three-IsUnique 2 3 4 (omega arith) (omega arith) (omega arith))
      (three-IsSound 2 3 4) refl refl refl

abbrev silent : sdk.Event → Async Group (Unit {0})
silent event s = (ok tt, s)

abbrev agent : Agent sdk Group
agent = new_agent sdk Group (codes "nats://localhost:4222") 60000

agent_starves_example :
    ((rounds env client options
        (on_delivery sdk env silent agent)
        none
        9
        (with_ids (1 ∷ 3 ∷ 4 ∷ []))).0
      ≡ ok tt)
    × (waiting
          (rounds env client options
            (on_delivery sdk env silent agent)
            none
            9
            (with_ids (1 ∷ 3 ∷ 4 ∷ []))).1.net
        ≡ store 1 ∷ store 3 ∷ store 4 ∷ [])
agent_starves_example =
    agent_starves sdk env silent agent client nats refl options (codes "g") 2 waiting
      (queues (λ s. []) (λ s ids. refl)) (acknowledges (on_delivery sdk env silent agent)) 9
      (with_ids (1 ∷ 3 ∷ 4 ∷ [])) (three-IsUnique 1 3 4 (omega arith) (omega arith) (omega arith))
      (three-IsSound 1 3 4)
