-- ===== src/A2a/Dispatch/Headerless.antt =====
-- `_dispatch` behind the client's consumer. The consumer hands over a `Message`, which has no
-- attribute `headers`, and `_dispatch` reads that attribute first.
use mq.Base.{ℕ, zero, suc, codes, none, List, [], ◌∷◌, ◌≡◌, refl, ap, ◌∙◌}
use mq.Py.Exceptions.{Result, ok, raise, attribute_error, is_exception}
use mq.Py.Async.{Async, resume}
use mq.Client.Types.{Env, Mq9Client, Message}
use mq.Client.Consumer.{
  Running, ConsumeOptions, poll, handle_and_ack, handle_message, handle_messages, round, rounds,
}
use mq.A2a.Types.{Sdk}
use mq.A2a.Agent.{Agent}
use mq.A2a.Dispatch.{of_message, headers_or_empty, dispatch}

module _ (sdk : Sdk) {S : Type 0} (env : Env S) (enqueue_base : sdk.Event → Async S (Unit {0}))
    (agent : Agent sdk S) where
  -- The handler that `create_mailbox` gives to its consumer.
  abbrev pub on_delivery : Message → Async S (Unit {0})
  on_delivery msg = dispatch sdk env enqueue_base agent (of_message msg)

  -- Whatever the message is, `_dispatch` raises and does nothing else.
  pub dispatch-of_message :
      (msg : Message) (s : S) → on_delivery msg s ≡ (raise (attribute_error (codes "headers")), s)
  unfolding dispatch headers_or_empty
  dispatch-of_message msg s = refl

  module _ (c : Mq9Client S) (o : ConsumeOptions) where
    -- A batch that the consumer of an agent fetches is dropped: nothing is handled, replied or
    -- acknowledged, and `processed_count` stays as it is.
    batch_dropped :
        (msgs : List Message) (w : Running S)
        → handle_messages env c o on_delivery none msgs w ≡ (ok tt, w)
    unfolding handle_messages handle_message handle_and_ack is_exception
    batch_dropped [] w = refl
    batch_dropped (msg ∷ msgs) w = rw dispatch-of_message (batch_dropped msgs w)

    resume-consumer :
        (r : Result (List Message)) (w : Running S)
        → (resume r (handle_messages env c o on_delivery none) w).1.consumer ≡ w.consumer
    resume-consumer (ok msgs) w =
        ap (λ (p : Result (Unit {0}) × Running S). p.1.consumer) (batch_dropped msgs w)
    resume-consumer (raise e) w = refl

    round-consumer : (w : Running S) → (round env c o on_delivery none w).1.consumer ≡ w.consumer
    unfolding round
    round-consumer w = resume-consumer (poll env c o w.net).0 _

    -- However long an agent's consumer runs and whatever arrives, it has processed no message.
    pub never_processes :
        (n : ℕ) (w : Running S) → (rounds env c o on_delivery none n w).1.consumer ≡ w.consumer
    unfolding rounds
    never_processes zero w = refl
    never_processes (suc n) w =
        after (round env c o on_delivery none w).0 (round env c o on_delivery none w).1
          (round-consumer w) (never_processes n)
      where
        after :
            (r : Result (Unit {0})) (v : Running S)
            → v.consumer ≡ w.consumer
            → ((u : Running S) → (rounds env c o on_delivery none n u).1.consumer ≡ u.consumer)
            → (resume r (λ _. rounds env c o on_delivery none n) v).1.consumer ≡ w.consumer
        after (ok _) v p ih = ih v ∙ p
        after (raise e) v p ih = p
