-- ===== src/A2a/Dispatch/Starves.antt =====
-- What `_dispatch` means for the mailbox of an agent: its consumer, as the broker sees it.
use mq.Base.{
  ℕ, Text, Bool, true, false, Option, none, some, List, [], ◌∷◌, All, take, ◌≡◌, refl, ap,
}
use mq.Py.Exceptions.{Result, ok}
use mq.Py.Async.{Async}
use mq.Client.Types.{Nats, Env, Mq9Client}
use mq.Client.Codec.RoundTrip.{Stored, message_of}
use mq.Client.Consumer.{Running, ConsumeOptions, rounds}
use mq.Client.Consumer.Delivery.{IsUnique, Queues, Delivers}
use mq.Client.Consumer.Delivery.Batch.{Acknowledges}
use mq.Client.Consumer.Delivery.Round.{IsSound}
use mq.Client.Consumer.Delivery.Drain.{rounds_starve}
use mq.A2a.Types.{Sdk}
use mq.A2a.Agent.{Agent}
use mq.A2a.Dispatch.Headerless.{on_delivery, dispatch-of_message}

all_fail : (ms : List Stored) → All (λ (m : Stored). ◌≡◌ {A = Bool} true true) ms
all_fail [] = tt
all_fail (m ∷ ms) = (refl, all_fail ms)

module _ (sdk : Sdk) {S : Type 0} (env : Env S) (enqueue_base : sdk.Event → Async S (Unit {0}))
    (agent : Agent sdk S) (c : Mq9Client S) (nc : Nats S) (connected : c.nc ≡ some nc)
    (o : ConsumeOptions) (group : Text) (n : ℕ) (waiting : S → List Stored) where
  -- The handler of an agent raises for every message and does nothing.
  on_delivery-Delivers :
      Queues env nc o group n waiting (λ s. [])
      → Delivers env nc o group n waiting
          (λ s. [])
          (on_delivery sdk env enqueue_base agent)
          none
          (λ m. true)
  unfolding mq.Py.Exceptions.is_exception
  on_delivery-Delivers queues = record {
    broker = queues;
    returns = λ m s f. absurd (cc f);
    raises = λ m s f. (
      mq.Py.Exceptions.attribute_error (mq.Base.codes "headers"),
      ap (λ r. r.0) (dispatch-of_message sdk env enqueue_base agent (message_of m) s),
      refl,
    );
    handler_quiet = λ m s.
        ap (λ r. waiting r.1) (dispatch-of_message sdk env enqueue_base agent (message_of m) s);
    handler_returned = λ m s f. absurd (cc f);
    handler_raised = λ m s f. refl;
    recovers = λ msg e s. refl;
    recovery_quiet = λ msg e s. (refl, refl);
  }

  -- The consumer of an agent, with a broker that serves its group as documented and waiting
  -- messages of different ids that JSON text can carry: however many rounds its loop makes, the
  -- loop goes on and every message that waited for the agent still waits.
  pub agent_starves :
      Queues env nc o group n waiting (λ s. [])
      → Acknowledges env c nc connected o group (on_delivery sdk env enqueue_base agent) none
      → (k : ℕ) (s : Running S) → IsUnique (waiting s.net)
      → All IsSound (waiting s.net)
      → ((rounds env c o (on_delivery sdk env enqueue_base agent) none k s).0 ≡ ok tt)
        × (waiting (rounds env c o (on_delivery sdk env enqueue_base agent) none k s).1.net
            ≡ waiting s.net)
  agent_starves queues how k s u h =
      let (done, still, counted) =
        rounds_starve env c nc connected o group (on_delivery sdk env enqueue_base agent) none how n
          waiting (λ s. []) (λ m. true) (on_delivery-Delivers queues) k s u h (all_fail _) in
      (done, still)
