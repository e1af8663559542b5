-- ===== src/Demo/Translator.antt =====
-- Agent A of demo/python/a2a_demo.py: its handler, and the script that runs it.
pub mod Events
pub mod Tasks
use mq.Base.{Text, codes, ℤ, pos, Option, List, [], ◌∷◌, none, some, ◌++◌, if◌then◌else◌}
use mq.Demo.Cards.{Card, agent_a_card}
use mq.Py.Exceptions.{Result, ok, raise, is_exception}
use mq.Py.Async.{Async, pure, ◌>>=◌, ◌>>◌, try_finally}
use mq.Client.Types.{Env}
use mq.A2a.Types.{Sdk, HandlerFn}
use mq.A2a.Agent.{Agent, new_agent, on_message}
use mq.A2a.Lifecycle.{World, connect, create_mailbox, register, unregister, close, on_net}

-- What the demo builds with a2a-sdk.
pub record Parts (sdk : Sdk) : Type 0 where
  -- the texts of the parts of `context.message`, if there is a message
  pub message_parts : sdk.Context → Option (List Text)
  -- `TaskStatusUpdateEvent` with TASK_STATE_WORKING and with TASK_STATE_COMPLETED
  pub working : sdk.Context → sdk.Event
  pub completed : sdk.Context → sdk.Event
  -- `TaskArtifactUpdateEvent` with `new_text_artifact`
  pub translation : sdk.Context → Text → sdk.Event
  pub agent_card : Card → sdk.AgentCard
  -- `SendMessageRequest(message=new_text_message(…))`
  pub text_request : Text → sdk.Request

-- `context.message.parts[0].text if context.message and context.message.parts else ""`
abbrev pub first_text : Option (List Text) → Text
first_text (some (t ∷ ts)) = t
first_text _ = []

module _ (sdk : Sdk) (parts : Parts sdk) {S : Type 0} where
  -- `handle`: the states and the artifact of one task, and a line on the screen.
  unfoldable pub translate : HandlerFn sdk S
  translate context emit = do
    emit (parts.working context)
    let translated = codes "[translated] " ++ first_text (parts.message_parts context)
    emit (parts.translation context translated)
    emit (parts.completed context)
    pure tt

  unfoldable pub make_agent_a : Text → Agent sdk S
  make_agent_a server =
      on_message sdk S translate (some (codes "demo.agent.translator.workers")) (codes "earliest")
        (pos 10) (pos 500) (new_agent sdk S server 60000)

-- `except (KeyboardInterrupt, asyncio.CancelledError): pass`
abbrev pub unless_stopped : Result (Unit {0}) → Result (Unit {0})
unless_stopped (ok _) = ok tt
unless_stopped (raise e) = if is_exception e then raise e else ok tt

abbrev pub until_stopped : {S : Type 0} → Async S (Unit {0}) → Async S (Unit {0})
until_stopped m s = (unless_stopped (m s).0, (m s).1)

module _ (sdk : Sdk) (parts : Parts sdk) {S : Type 0} (env : Env S)
    (wait : Async S (Unit {0})) where
  -- `run_agent`, on the agent that `make_agent_a` has made. `wait` is `asyncio.Event().wait()`.
  unfoldable pub run_agent : Async (World sdk S) (Unit {0})
  run_agent = do
    connect sdk env
    _ ← create_mailbox sdk env agent_a_card.name (pos 0)
    register sdk env (parts.agent_card agent_a_card)
    try_finally (on_net (until_stopped wait)) (do unregister sdk env; close sdk env)
