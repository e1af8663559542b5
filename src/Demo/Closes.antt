-- ===== src/Demo/Closes.antt =====
-- That the demos of the client close the connection that they open.
use mq.Base.{ℕ, Text, ℤ, pos, Bool-cases, inl, inr, Option, some, none, List, [], ◌∷◌, ◌≡◌}
use mq.Py.Json.{Json, Fields, truthy}
use mq.Py.Async.{Async, pure, lift}
use mq.Py.Async.Keeps.{Keeps, Keeps-pure, Keeps-lift, Keeps-bind, Keeps-try}
use mq.Client.Types.{Nats, Env, Mq9Client, Message}
use mq.Client.Headers.{Options}
use mq.Client.Keeps.{
  Calls, mailbox_create-Keeps, send-Keeps, fetch-Keeps, ack-Keeps, query-Keeps, delete-Keeps,
  agent_register-Keeps, agent_unregister-Keeps, agent_report-Keeps, agent_discover-Keeps,
}
use mq.Client.Consumer.{Running, poll, handle_and_ack, consume, stop, rounds}
use mq.Client.Consumer.Keeps.{rounds-Keeps, on_net-Keeps}
use mq.Langchain.Session.Watched.{Watched, watched, Answers, watched-Connections}
use mq.Langchain.Tools.Closes.{count-with_client}
use mq.Demo.Messages
use mq.Demo.Registry

-- `m`, and then what `f` does with its value.
after :
    {S A B : Type 0} {P : S → Type 0} {m : Async S A} {f : A → Async S B}
    → Keeps P m
    → ((a : A) → Keeps P (f a))
    → Keeps P (mq.Py.Async.◌>>=◌ m f)
after {m = m} {f = f} h k = Keeps-bind m f h k

module _ {S : Type 0} {P : S → Type 0} (env : Env S) (c : Mq9Client S) (nc : Nats S)
    (e : c.nc ≡ some nc) (calls : Calls P nc) where
  find-Keeps :
      (text semantic : Option Text) (limit : ℤ) → Keeps P (Registry.find env c text semantic limit)
  find-Keeps text semantic limit =
      after (agent_discover-Keeps env c nc e calls text semantic limit (pos 1))
        λ agents. Keeps-lift _

  send_task-Keeps : (target : Json) → Keeps P (Registry.send_task env c target)
  unfolding Registry.send_task
  send_task-Keeps target = elim (Bool-cases (truthy target)) [
    | inl t ↦ rw t (
        after (mailbox_create-Keeps env c nc e calls none (pos 60)) λ a.
          after (Keeps-lift _)
            λ address. after (send-Keeps env c nc e calls address _ _) λ _. Keeps-pure tt)
    | inr f ↦ rw f (Keeps-pure tt)
  ]

  registry-Keeps : Keeps P (Registry.session env c)
  unfolding Registry.session
  registry-Keeps = after (mailbox_create-Keeps env c nc e calls _ _) λ created.
      after (Keeps-lift _) λ address. after (agent_register-Keeps env c nc e calls _) λ _.
        after (agent_report-Keeps env c nc e calls _) λ _. after (find-Keeps _ _ _) λ _.
          after (find-Keeps _ _ _) λ agents. after (send_task-Keeps _) λ _.
            after (agent_discover-Keeps env c nc e calls none none _ _)
              λ _. after (Keeps-lift _) λ _. agent_unregister-Keeps env c nc e calls address

  module _ (sleeps : (ms : ℕ) → Keeps P (env.sleep ms)) (address : Text) where
    sent : (o : Options) (body : Fields) → Keeps P (Messages.send_with env c address o body)
    sent o body = send-Keeps env c nc e calls address _ o

    send_all-Keeps : Keeps P (Messages.send_all env c address)
    unfolding Messages.send_all
    send_all-Keeps = after (sent _ _) λ mid1. after (sent _ _) λ _. after (sent _ _) λ _.
        after (sent _ _) λ _. after (sent _ _) λ _.
          after (sent _ _)
            λ _. after (sent _ _) λ _. after (sent _ _) λ _. after (sent _ _) λ _. Keeps-pure mid1

    show_all-Keeps : (msgs : List Message) → Keeps P (Messages.show_all env msgs)
    show_all-Keeps msgs = after (Keeps-lift _) λ _. Keeps-pure tt

    ack_last-Keeps : (msgs : List Message) → Keeps P (Messages.ack_last env c address msgs)
    ack_last-Keeps [] = Keeps-pure tt
    ack_last-Keeps (msg ∷ msgs) = ack-Keeps env c nc e calls address _ _

    fetch_and_ack-Keeps : Keeps P (Messages.fetch_and_ack env c address)
    unfolding Messages.fetch_and_ack
    fetch_and_ack-Keeps =
        after (fetch-Keeps env c nc e calls address _)
          λ msgs. after (show_all-Keeps msgs) λ _. ack_last-Keeps msgs

    poll-Keeps : Keeps P (poll env c (Messages.consume_options address))
    unfolding poll
    poll-Keeps =
        Keeps-try _ _ (fetch-Keeps env c nc e calls address _)
          λ x. after (sleeps 1000) λ _. Keeps-pure []

    handle_and_ack-Keeps :
        (msg : Message)
        → Keeps P (
            handle_and_ack env c
              (Messages.consume_options address)
              (Messages.handler env)
              (some (Messages.on_error env))
              msg)
    unfolding handle_and_ack Messages.handler
    handle_and_ack-Keeps msg =
        after (after (Keeps-lift _) λ _. Keeps-pure tt) λ _. ack-Keeps env c nc e calls address _ _

    consume_for-Keeps :
        (n : ℕ) (unwind : Async (Running S) (Unit {0}))
        → Keeps (λ (w : Running S). P w.net) unwind
        → Keeps P (Messages.consume_for env c address n unwind)
    unfolding Messages.consume_for stop
    consume_for-Keeps n unwind k = record {
      at = λ s h.
          (after {m = mq.Client.Consumer.on_net (env.sleep 3000)} {f = λ _. stop unwind}
              (on_net-Keeps (env.sleep 3000) (sleeps 3000)) λ _. stop-Keeps unwind k).at
            _
            ((rounds-Keeps env c (Messages.consume_options address) (Messages.handler env)
                (some (Messages.on_error env)) poll-Keeps handle_and_ack-Keeps
                (λ msg x. Keeps-try _ _ (Keeps-pure tt) λ _. Keeps-pure tt) n).at
              (consume s) h);
    }
      where
        stop-Keeps :
            (unwind : Async (Running S) (Unit {0}))
            → Keeps (λ (w : Running S). P w.net) unwind
            → Keeps (λ (w : Running S). P w.net) (stop unwind)
        stop-Keeps unwind k = record { at = λ s h. k.at s h }

  messages-Keeps :
      (sleeps : (ms : ℕ) → Keeps P (env.sleep ms)) (n : ℕ) (unwind : Async (Running S) (Unit {0}))
      → Keeps (λ (w : Running S). P w.net) unwind
      → Keeps P (Messages.session env n unwind c)
  unfolding Messages.session
  messages-Keeps sleeps n unwind k = after (mailbox_create-Keeps env c nc e calls _ _) λ created.
      after (Keeps-lift _) λ address. after (send_all-Keeps sleeps address) λ mid1.
        after (fetch_and_ack-Keeps sleeps address) λ _.
          after (query-Keeps env c nc e calls address _ _ _) λ results.
            after (show_all-Keeps sleeps address results) λ _.
              after (consume_for-Keeps sleeps address n unwind k)
                λ _. delete-Keeps env c nc e calls address mid1

-- For connections whose `is_closed` returns, the message demo and the registry demo close the
-- connection that they open: however they end, and whatever number of rounds the demo's consumer
-- makes, for each connection that `nats.connect` has returned they have called `drain`, or have
-- been answered that it is closed already. The condition is that what the consumer's task does
-- while it is being cancelled opens and closes none.
pub demos_close :
    {S : Type 0} (env : Env S)
    → Answers env
    → (server : Text) (rounds_made : ℕ) (unwind : Async (Running (Watched S)) (Unit {0})) (s : S)
      (n : ℕ)
    → ((m : ℕ) → Keeps (λ (w : Running (Watched S)). w.net.1 ≡ m) unwind)
    → ((Messages.main (watched env) server rounds_made unwind (s, n)).1.1 ≡ n)
      × ((Registry.main (watched env) server (s, n)).1.1 ≡ n)
unfolding Messages.main Registry.main
demos_close {S} env answers server rounds_made unwind s n k =
    let laws = watched-Connections env answers in
    let count : Watched S → ℕ = λ w. w.1 in
    (
      count-with_client (watched env) count laws server
          (Messages.session (watched env) rounds_made unwind) (s, n)
          λ c nc e q m.
            messages-Keeps (watched env) c nc e (q m) (λ ms. laws.slept ms m) rounds_made unwind
              (k m),
      count-with_client (watched env) count laws server (Registry.session (watched env)) (s, n)
          λ c nc e q m. registry-Keeps (watched env) c nc e (q m),
    )
