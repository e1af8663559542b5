-- ===== src/Tests/Demo.antt =====
-- The theorems about the A2A demo on a small network.
use mq.Base.{ℕ, codes, text_eq, pos, Bool, true, false, some, none, [], ◌∷◌, ◌≡◌, refl}
use mq.Py.Exceptions.{ok, raise, value_error}
use mq.Py.Json.{get, truthy}
use mq.Client.Codec.{check_response, decode_response}
use mq.Client.Connection.{
  new_client, request, request_with_headers, exchange, publish_and_wait, wait_for,
}
use mq.Client.Agents.{agent_discover, discover_body, agents_of}
use mq.A2a.Types.{failed, canceled, completed}
use mq.A2a.Agent.{Agent, on_message, mailbox_of}
use mq.A2a.Calls.{discover, send_message}
use mq.A2a.Lifecycle.{World, connect, create_mailbox, register}
use mq.Demo.Translator.{Parts, make_agent_a, run_agent}
use mq.Demo.Translator.Tasks.{run_agent_leaves_no_task}
use mq.Demo.Sender.{make_agent_b, run_client, stop, send_task, first_agent, address_of, with_agents}
use mq.Tests.World.{env as net_env}
use mq.Tests.A2a.{sdk, agent}
use mq.Tests.Store.{encodes}
use mq.Tests.Broker.{
  one_agent, env, client_on, mailbox_made, IsMade, mailbox_kept, registration_made,
  registration_kept, unregister_returns, closes, unregister_keeps,
}

abbrev parts : Parts sdk
parts = record {
  message_parts = λ context. some (codes "hello" ∷ []);
  working = λ context. canceled;
  completed = λ context. completed;
  translation = λ context text. failed;
  agent_card = λ card. card.name;
  text_request = λ text. text;
}

abbrev agent_a : World sdk ℕ
agent_a = record {
  agent = make_agent_a sdk parts (codes "nats://localhost:4222");
  net = 0;
  running = [];
  next_task = 0;
  counts = λ k. 0;
}

abbrev agent_b : World sdk ℕ
agent_b = record agent_a { agent = make_agent_b sdk (codes "nats://localhost:4222") }

connects : (b : Bool) (w : World sdk ℕ) → (connect sdk (env b) w).0 ≡ ok tt
unfolding connect mq.Client.Connection.connect
connects b w = refl

connected_as :
    (b : Bool) (w : World sdk ℕ)
    → w.agent.server ≡ codes "nats://localhost:4222"
    → (connect sdk (env b) w).1.agent.mq9 ≡ some (client_on b)
unfolding connect mq.Client.Connection.connect
connected_as b w e = rw e

server_a : agent_a.agent.server ≡ codes "nats://localhost:4222"
unfolding make_agent_a on_message
server_a = refl

server_b : agent_b.agent.server ≡ codes "nats://localhost:4222"
unfolding make_agent_b on_message
server_b = refl

run_agent_leaves_no_task_example :
    (run_agent sdk parts (env false) (λ s. (ok tt, s)) agent_a).1.running ≡ []
run_agent_leaves_no_task_example =
    let w1 = (connect sdk (env false) agent_a).1 in
    let name = codes "demo.agent.translator" in
    let w2 = (create_mailbox sdk (env false) name (pos 0) w1).1 in
    let made = mailbox_kept false name w1 (connected_as false agent_a server_a) in
    run_agent_leaves_no_task sdk parts (env false) (λ s. (ok tt, s)) agent_a (codes "box")
      (record { below = tt }) (connects false agent_a)
      (mailbox_made false name w1 (connected_as false agent_a server_a))
      (registration_made false (codes "demo.agent.translator") w2 made)
      (unregister_returns false _ (registration_kept false (codes "demo.agent.translator") w2 made))

agents_found :
    (s : ℕ)
    → (agent_discover
        (env false)
        (client_on false)
        none
        (some (codes "translation agent"))
        (pos 10)
        (pos 1)
        s).0
      ≡ ok one_agent
unfolding agent_discover request decode_response check_response get truthy text_eq agents_of
agents_found s =
    rw (encodes (discover_body none (some (codes "translation agent")) (pos 10) (pos 1)))

search_fails :
    (s : ℕ)
    → (agent_discover
        (env true)
        (client_on true)
        none
        (some (codes "translation agent"))
        (pos 10)
        (pos 1)
        s).0
      ≡ raise (value_error [])
unfolding agent_discover request decode_response check_response text_eq
search_fails s =
    rw (encodes (discover_body none (some (codes "translation agent")) (pos 10) (pos 1)))

discovers :
    (w : World sdk ℕ)
    → IsMade false w
    → (discover sdk (env false) w.agent (some (codes "translation agent")) true (pos 10) w.net).0
      ≡ ok one_agent
unfolding discover
discovers w e = rw (e.0, agents_found)

discovers_none :
    (w : World sdk ℕ)
    → IsMade true w
    → (discover sdk (env true) w.agent (some (codes "translation agent")) true (pos 10) w.net).0
      ≡ raise (value_error [])
unfolding discover
discovers_none w e = rw (e.0, search_fails)

task_sent :
    (a : Agent sdk ℕ) (s : ℕ)
    → a.mq9 ≡ some (client_on false)
    → (send_task sdk parts (env false) a (codes "box") one_agent s).0 ≡ ok tt
unfolding send_task first_agent address_of mailbox_of send_message request_with_headers exchange
    publish_and_wait wait_for decode_response check_response truthy get text_eq
task_sent a s e = rw e

stops : (b : Bool) (w : World sdk ℕ) → IsMade b w → (stop sdk parts (env b) w).0 ≡ ok tt
unfolding stop
stops b w e = rw (unregister_returns b w e) (closes b _ (unregister_keeps b w e))

sends :
    (w : World sdk ℕ)
    → IsMade false w
    → (with_agents sdk parts (env false) w.agent (codes "box") one_agent w).0 ≡ ok tt
unfolding with_agents truthy
sends w e = rw (task_sent w.agent w.net e.0) (stops false _ e)

client_returns : (run_client sdk parts (env false) agent_b).0 ≡ ok tt
unfolding run_client
client_returns =
    let w1 = (connect sdk (env false) agent_b).1 in
    let name = codes "demo.agent.sender" in
    let w2 = (create_mailbox sdk (env false) name (pos 0) w1).1 in
    let w3 = (register sdk (env false) (codes "demo.agent.sender") w2).1 in
    let is_connected = connected_as false agent_b server_b in
    let made =
      registration_kept false (codes "demo.agent.sender") w2
        (mailbox_kept false name w1 is_connected) in
    rw
      (
        connects false agent_b,
        mailbox_made false name w1 is_connected,
        registration_made false (codes "demo.agent.sender") w2
            (mailbox_kept false name w1 is_connected),
        discovers w3 made,
      )
      (sends _ made)
