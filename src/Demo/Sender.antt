-- ===== src/Demo/Sender.antt =====
-- Agent B of demo/python/a2a_demo.py, which sends one task and waits for the result, and the script
-- that runs both agents.
pub mod Tasks
use mq.Base.{Text, codes, ℤ, pos, true, none, some, if◌then◌else◌}
use mq.Py.Exceptions.{Result, ok, raise, attribute_error, type_error, key_error}
use mq.Py.Json.{Json, null, bool, int, str, arr, obj, nil, cons, Fields, get, truthy}
use mq.Py.Async.{Async, pure, lift, ◌>>=◌, ◌>>◌}
use mq.Client.Types.{Env}
use mq.Client.Codec.{as_dict}
use mq.Client.Messaging.{item}
use mq.A2a.Types.{Sdk, HandlerFn}
use mq.A2a.Agent.{Agent, Address, mailbox, entry, new_agent, on_message}
use mq.A2a.Calls.{discover, send_message}
use mq.A2a.Lifecycle.{
  World, connect, create_mailbox, register, unregister, close, on_net, the_agent,
}
use mq.Demo.Cards.{agent_a_card, agent_b_card}
use mq.Demo.Translator.{Parts, make_agent_a}

-- `handle_incoming` only prints.
abbrev pub handle_incoming : (sdk : Sdk) {S : Type 0} → HandlerFn sdk S
handle_incoming sdk context emit = pure tt

unfoldable pub make_agent_b : (sdk : Sdk) {S : Type 0} → Text → Agent sdk S
make_agent_b sdk {S} server =
    on_message sdk S (handle_incoming sdk) (some (codes "demo.agent.sender.workers"))
      (codes "earliest") (pos 10) (pos 500) (new_agent sdk S server 60000)

-- `agents[0]`, whose `get` is called next: a text gives a character, which has none, and a `dict`
-- of the JSON module has no key 0.
unfoldable pub first_agent : Json → Result Fields
first_agent (arr (cons v vs)) = as_dict v
first_agent (str t) = raise (attribute_error (codes "get"))
first_agent (obj d) = raise (key_error (codes "0"))
first_agent _ = raise (type_error (codes "no subscript"))

-- What `send_message` is given as an address.
unfoldable pub address_of : Json → Result Address
address_of (str t) = ok (mailbox t)
address_of (obj d) = ok (entry d)
address_of _ = raise (attribute_error (codes "get"))

module _ (sdk : Sdk) (parts : Parts sdk) {S : Type 0} (env : Env S) where
  -- The task for the first of the agents that were found, and the time for its result.
  unfoldable pub send_task : Agent sdk S → Text → Json → Async S (Unit {0})
  send_task agent_b b_mailbox agents = do
    target ← lift (first_agent agents)
    named ← lift (item target (codes "mailbox"))
    address ← lift (address_of named)
    _ ← send_message sdk env agent_b address (parts.text_request (codes "你好，世界")) (some b_mailbox)
    env.sleep 10000

  unfoldable pub stop : Async (World sdk S) (Unit {0})
  stop = do unregister sdk env; close sdk env

  -- What the script does with the agents that it has found.
  unfoldable pub with_agents : Agent sdk S → Text → Json → Async (World sdk S) (Unit {0})
  with_agents agent_b b_mailbox agents =
      if truthy agents then (do on_net (send_task agent_b b_mailbox agents); stop) else stop

  -- `run_client`, on the agent that its first lines have made.
  unfoldable pub run_client : Async (World sdk S) (Unit {0})
  run_client = do
    connect sdk env
    b_mailbox ← create_mailbox sdk env agent_b_card.name (pos 0)
    register sdk env (parts.agent_card agent_b_card)
    agent_b ← the_agent
    agents ← on_net (discover sdk env agent_b (some (codes "translation agent")) true (pos 10))
    with_agents agent_b b_mailbox agents

  -- A new agent B over the same network; its background tasks are numbered apart.
  abbrev pub agent_b_world : Text → S → World sdk S
  agent_b_world server s = record {
    agent = make_agent_b sdk server;
    net = s;
    running = mq.Base.[];
    next_task = 0;
    counts = λ k. 0;
  }

  abbrev pub client_on : Text → Async S (Unit {0})
  client_on server s = let r = run_client (agent_b_world server s) in (r.0, r.1.net)

  -- `run_both`, on the agent that `make_agent_a` has made.
  unfoldable pub run_both : Text → Async (World sdk S) (Unit {0})
  run_both server = do
    connect sdk env
    _ ← create_mailbox sdk env agent_a_card.name (pos 0)
    register sdk env (parts.agent_card agent_a_card)
    on_net (env.sleep 1000)
    on_net (client_on server)
    stop
