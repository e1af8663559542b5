-- ===== src/Client/Consumer/Keeps.antt =====
-- A predicate on the state outside the consumer that its poll, its handler and its ack keep is kept
-- by the loop.
use mq.Base.{ℕ, zero, suc, List, [], ◌∷◌, Option}
use mq.Py.Exceptions.{Exn}
use mq.Py.Async.{Async}
use mq.Py.Async.Keeps.{Keeps, Keeps-pure, Keeps-bind, Keeps-try}
use mq.Client.Types.{Env, Mq9Client, Message}
use mq.Client.Consumer.{
  Running, ConsumeOptions, on_net, on_error, poll, handle_and_ack, handle_message, handle_messages,
  round, rounds,
}

pub on_net-Keeps :
    {S A : Type 0} {P : S → Type 0} (m : Async S A)
    → Keeps P m
    → Keeps (λ (w : Running S). P w.net) (on_net m)
on_net-Keeps m k = record { at = λ s p. k.at s.net p }

module _ {S : Type 0} {P : S → Type 0} (env : Env S) (c : Mq9Client S) (o : ConsumeOptions)
    (handler : Message → Async S (Unit {0}))
    (error_handler : Option (Message → Exn → Async S (Unit {0}))) (polls : Keeps P (poll env c o))
    (handles : (msg : Message) → Keeps P (handle_and_ack env c o handler error_handler msg))
    (recovers : (msg : Message) (x : Exn) → Keeps P (on_error error_handler msg x)) where
  handle_messages-Keeps :
      (msgs : List Message)
      → Keeps (λ (w : Running S). P w.net) (handle_messages env c o handler error_handler msgs)
  unfolding handle_messages handle_message
  handle_messages-Keeps [] = Keeps-pure tt
  handle_messages-Keeps (msg ∷ msgs) =
      Keeps-bind (handle_message env c o handler error_handler msg) _
        (Keeps-try _ _
          (Keeps-bind (on_net (handle_and_ack env c o handler error_handler msg)) _
            (on_net-Keeps _ (handles msg)) λ _. record { at = λ s p. p })
          λ x. on_net-Keeps _ (recovers msg x))
        λ _. handle_messages-Keeps msgs

  pub rounds-Keeps :
      (n : ℕ) → Keeps (λ (w : Running S). P w.net) (rounds env c o handler error_handler n)
  unfolding rounds round
  rounds-Keeps zero = Keeps-pure tt
  rounds-Keeps (suc n) =
      Keeps-bind (round env c o handler error_handler) _
        (Keeps-bind (on_net (poll env c o)) _ (on_net-Keeps _ polls) handle_messages-Keeps)
        λ _. rounds-Keeps n
