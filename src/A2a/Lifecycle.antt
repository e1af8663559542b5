-- ===== src/A2a/Lifecycle.antt =====
-- The life cycle of an agent, python/mq9/a2a/agent.py: `connect`, `create_mailbox`, `register`,
-- `unregister`, `close` and the heartbeat. Logging is left out.
pub mod Tasks
pub mod Survival
pub mod Ordering
pub mod Sessions
use mq.Base.{
  ℕ, zero, suc, ◌+◌, Text, codes, ℤ, pos, Bool, true, false, Option, none, some, List, [], ◌∷◌,
  ◌++◌, ◌==◌, if◌then◌else◌, is_empty,
}
use mq.Base.Decimal.{decimal}
use mq.Py.Exceptions.{Exn, Result, ok, raise, runtime_error}
use mq.Py.Json.{Json, null, str, obj, Fields, end, field}
use mq.Py.Async.{Async, pure, throw, lift, ◌>>=◌, ◌>>◌, try_except}
use mq.Client.Types.{Env, Mq9Client}
use mq.Client.Connection
use mq.Client.Connection.{new_client}
use mq.Client.Messaging.{mailbox_create}
use mq.Client.Agents.{agent_register, agent_unregister, agent_report}
use mq.Client.Consumer.{ConsumeOptions}
use mq.A2a.Types.{Sdk, truthy_text}
use mq.A2a.TaskStore.{new_store, mark_ready}
use mq.A2a.Agent.{Agent, mq9_or_raise}
use mq.A2a.Calls.{address_text}

-- The agent, the rest of the world, the numbers of the background tasks that run, the number of the
-- next one, and the `processed_count` of each consumer.
pub record World (sdk : Sdk) (S : Type 0) : Type 0 where
  pub agent : Agent sdk S
  pub net : S
  pub running : List ℕ
  pub next_task : ℕ
  pub counts : ℕ → ℕ

-- Removing a task that has ended.
unfoldable pub remove : ℕ → List ℕ → List ℕ
remove k [] = []
remove k (j ∷ l) = let rest = remove k l in if j == k then rest else j ∷ rest

-- `x or default` for a text that may be `None`
abbrev pub or_text : Option Text → Text → Text
or_text o default = elim (truthy_text o) [ none ↦ default | some t ↦ t ]

abbrev pub text_or_null : Option Text → Json
text_or_null none = null
text_or_null (some t) = str t

module _ {sdk : Sdk} {S : Type 0} where
  abbrev pub on_net : {A : Type 0} → Async S A → Async (World sdk S) A
  on_net m w = ((m w.net).0, record w { net = (m w.net).1 })

  abbrev pub the_agent : Async (World sdk S) (Agent sdk S)
  the_agent w = (ok w.agent, w)

  abbrev pub update : (Agent sdk S → Agent sdk S) → Async (World sdk S) (Unit {0})
  update f w = (ok tt, record w { agent = f w.agent })

  -- `asyncio.ensure_future(…)`
  abbrev pub start_task : Async (World sdk S) ℕ
  start_task w =
      (ok w.next_task, record w { running = w.next_task ∷ w.running; next_task = w.next_task + 1 })

  -- `task.cancel()`, and waiting for its end with every exception dropped
  unfoldable pub end_task : Option ℕ → Async (World sdk S) (Unit {0})
  end_task none w = (ok tt, w)
  end_task (some k) w = (ok tt, record w { running = remove k w.running })

-- The consumer that `create_mailbox` starts: messages go to `_dispatch`, with no error handler.
abbrev pub consumer_options : {sdk : Sdk} {S : Type 0} → Agent sdk S → Text → Text → ConsumeOptions
consumer_options agent name mailbox = record {
  mail_address = mailbox;
  group_name = some (or_text agent.group_name (name ++ codes ".workers"));
  deliver = agent.deliver;
  num_msgs = agent.num_msgs;
  max_wait_ms = agent.max_wait_ms;
  auto_ack = true;
}

module _ (sdk : Sdk) {S : Type 0} (env : Env S) where
  open sdk use {AgentCard, description, card_dict}

  -- `_mq9` is assigned before the new client connects, with the default time-out of a client.
  unfoldable pub connect : Async (World sdk S) (Unit {0})
  connect = do
    agent ← the_agent
    update (λ a. record a { mq9 = some (new_client agent.server 5000) })
    client ← on_net (Connection.connect env (new_client agent.server 5000))
    update (λ a. record a { mq9 = some client })

  unfoldable pub create_mailbox : Text → ℤ → Async (World sdk S) Text
  create_mailbox name ttl = do
    agent ← the_agent
    mq9 ← lift (mq9_or_raise sdk S agent)
    update (λ a. record a { agent_name = some name })
    created ← on_net (mailbox_create env mq9 (some name) ttl)
    address ← lift (address_text created)
    update (λ a. record a { mailbox = some address })
    on_net (
        try_except (do _ ← mailbox_create env mq9 (some (name ++ codes ".tasks")) ttl; pure tt)
          (λ _. pure tt))
    update
        (λ a. record a { task_store = some (mark_ready (new_store mq9 (name ++ codes ".tasks"))) })
    task ← start_task
    update (λ a. record a { consumer = some task })
    pure address

  unfoldable pub registration : Agent sdk S → Text → AgentCard → Fields
  registration agent mailbox card = field (codes "name") (text_or_null agent.agent_name) (
      field (codes "mailbox") (str mailbox) (
        field (codes "payload") (str (description card))
          (field (codes "agent_card") (obj (card_dict card)) end)))

  abbrev pub register_at : Mq9Client S → Option Text → AgentCard → Async (World sdk S) (Unit {0})
  register_at mq9 none card =
      throw (runtime_error (codes "Call create_mailbox() before register()."))
  register_at mq9 (some mailbox) card = do
    update (λ a. record a { agent_card = some card })
    agent ← the_agent
    on_net (agent_register env mq9 (registration agent mailbox card))
    task ← start_task
    update (λ a. record a { heartbeat_task = some task })

  unfoldable pub register : AgentCard → Async (World sdk S) (Unit {0})
  register card = do
    agent ← the_agent
    mq9 ← lift (mq9_or_raise sdk S agent)
    register_at mq9 (truthy_text agent.mailbox) card

  abbrev pub unregister_at : Option (Mq9Client S) → Option Text → Async S (Unit {0})
  unregister_at none mailbox = pure tt
  unregister_at (some mq9) none = pure tt
  unregister_at (some mq9) (some mailbox) =
      try_except (agent_unregister env mq9 mailbox) (λ _. pure tt)

  unfoldable pub unregister : Async (World sdk S) (Unit {0})
  unregister = do
    agent ← the_agent
    end_task agent.heartbeat_task
    on_net (unregister_at agent.mq9 (truthy_text agent.mailbox))

  abbrev pub close_client : Option (Mq9Client S) → Async S (Unit {0})
  close_client none = pure tt
  close_client (some mq9) = Connection.close mq9

  -- The class declares `close` twice; the later declaration is the one that counts.
  unfoldable pub close : Async (World sdk S) (Unit {0})
  close = do agent ← the_agent; end_task agent.consumer; on_net (close_client agent.mq9)

  abbrev pub count_of : World sdk S → ℕ
  count_of w = elim w.agent.consumer [ none ↦ 0 | some k ↦ w.counts k ]

  unfoldable pub report_body : Text → Text → ℕ → Fields
  report_body name mailbox processed = field (codes "name") (str name) (
      field (codes "mailbox") (str mailbox)
        (field (codes "report_info") (str (codes "running, processed=" ++ decimal processed)) end))

  abbrev pub report : Option (Mq9Client S) → Option Text → Option Text → ℕ → Async S (Unit {0})
  report (some mq9) (some mailbox) (some name) processed =
      agent_report env mq9 (report_body name mailbox processed)
  report _ _ _ processed = pure tt

  -- One round of `_heartbeat_loop`.
  unfoldable pub heartbeat : Async (World sdk S) (Unit {0})
  heartbeat = on_net (env.sleep 30000) >> λ w.
      on_net
        (try_except
          (report w.agent.mq9 (truthy_text w.agent.mailbox) (truthy_text w.agent.agent_name)
            (count_of w))
          (λ _. pure tt))
        w

  -- The first `n` rounds.
  unfoldable pub heartbeats : ℕ → Async (World sdk S) (Unit {0})
  heartbeats zero = pure tt
  heartbeats (suc n) = do heartbeat; heartbeats n
