-- ===== src/Client/Consumer/Survival.antt =====
-- What can end the loop of a consumer.
use mq.Base.{ℕ, zero, suc, Option, none, some, List, [], ◌∷◌}
use mq.Py.Exceptions.{Exn}
use mq.Py.Async.{Async, pure}
use mq.Py.Async.OnlyCancelled.{
  IsCancelled, OnlyCancelled, OnlyCancelled-pure, OnlyCancelled-try, OnlyCancelled-bind,
}
use mq.Client.Types.{Env, Mq9Client, Message}
use mq.Client.Consumer.{
  Running, ConsumeOptions, on_net, on_error, handle_message, handle_messages, poll, round, rounds,
}

OnlyCancelled-on_net : {S A : Type 0} (m : Async S A) → OnlyCancelled m → OnlyCancelled (on_net m)
OnlyCancelled-on_net m k = record { at = λ s. k.at s.net }

on_error-OnlyCancelled :
    {S : Type 0} (eh : Option (Message → Exn → Async S (Unit {0}))) (msg : Message) (exc : Exn)
    → OnlyCancelled (on_error eh msg exc)
on_error-OnlyCancelled none msg exc = OnlyCancelled-pure tt
on_error-OnlyCancelled (some h) msg exc =
    OnlyCancelled-try (h msg exc) (λ _. pure tt) (λ _. OnlyCancelled-pure tt)

poll-OnlyCancelled :
    {S : Type 0} (env : Env S) (c : Mq9Client S) (o : ConsumeOptions)
    → ((ms : ℕ) → OnlyCancelled (env.sleep ms))
    → OnlyCancelled (poll env c o)
unfolding poll
poll-OnlyCancelled env c o sleeps =
    OnlyCancelled-try _ _
      λ e. OnlyCancelled-bind (env.sleep 1000) _ (sleeps 1000) λ _. OnlyCancelled-pure []

module _ {S : Type 0} (env : Env S) (c : Mq9Client S) (o : ConsumeOptions)
    (handler : Message → Async S (Unit {0}))
    (error_handler : Option (Message → Exn → Async S (Unit {0}))) where
  handle_messages-OnlyCancelled :
      (msgs : List Message) → OnlyCancelled (handle_messages env c o handler error_handler msgs)
  unfolding handle_messages handle_message
  handle_messages-OnlyCancelled [] = OnlyCancelled-pure tt
  handle_messages-OnlyCancelled (msg ∷ msgs) =
      OnlyCancelled-bind (handle_message env c o handler error_handler msg) _
        (OnlyCancelled-try _ _
          λ e. OnlyCancelled-on_net _ (on_error-OnlyCancelled error_handler msg e))
        λ _. handle_messages-OnlyCancelled msgs

  rounds-OnlyCancelled :
      ((ms : ℕ) → OnlyCancelled (env.sleep ms))
      → (n : ℕ) → OnlyCancelled (rounds env c o handler error_handler n)
  unfolding rounds round
  rounds-OnlyCancelled sleeps zero = OnlyCancelled-pure tt
  rounds-OnlyCancelled sleeps (suc n) =
      OnlyCancelled-bind (round env c o handler error_handler) _
        (OnlyCancelled-bind (on_net (poll env c o)) _
          (OnlyCancelled-on_net _ (poll-OnlyCancelled env c o sleeps))
          handle_messages-OnlyCancelled)
        λ _. rounds-OnlyCancelled sleeps n

  -- If `asyncio.sleep` raises nothing but a cancellation, then after any number of rounds the loop
  -- of `consume` is still running or was ended by a cancellation: no failing fetch, message,
  -- handler, ack or error handler ends it.
  pub rounds_survive :
      ((ms : ℕ) → OnlyCancelled (env.sleep ms))
      → (n : ℕ) (s : Running S) → IsCancelled (rounds env c o handler error_handler n s).0
  rounds_survive sleeps n s = (rounds-OnlyCancelled sleeps n).at s
