-- ===== src/A2a/Agent.antt =====
-- The object `Mq9A2AAgent`, python/mq9/a2a/agent.py.
use mq.Base.{ℕ, Text, codes, ℤ, pos, Option, none, some, []}
use mq.Py.Exceptions.{Result, runtime_error, value_error, raise, ok, or_raise}
use mq.Py.Json.{Json, str, Fields, get}
use mq.Client.Types.{Mq9Client}
use mq.A2a.Types.{Sdk, HandlerFn}
use mq.A2a.TaskStore.{TaskStore}

module _ (sdk : Sdk) (S : Type 0) where
  -- A background task is known by its number.
  pub record Agent : Type 0 where
    pub server : Text
    pub timeout : ℕ
    pub executor : Option (HandlerFn sdk S)
    pub mq9 : Option (Mq9Client S)
    pub mailbox : Option Text
    pub agent_name : Option Text
    pub agent_card : Option sdk.AgentCard
    pub task_store : Option (TaskStore S)
    pub consumer : Option ℕ
    pub heartbeat_task : Option ℕ
    pub group_name : Option Text
    pub deliver : Text
    pub num_msgs : ℤ
    pub max_wait_ms : ℤ

  abbrev pub new_agent : Text → ℕ → Agent
  new_agent server request_timeout = record {
    server = server;
    timeout = request_timeout;
    executor = none;
    mq9 = none;
    mailbox = none;
    agent_name = none;
    agent_card = none;
    task_store = none;
    consumer = none;
    heartbeat_task = none;
    group_name = none;
    deliver = codes "earliest";
    num_msgs = pos 10;
    max_wait_ms = pos 500;
  }

  -- `on_message`, plain or with consumer options
  unfoldable pub on_message : HandlerFn sdk S → Option Text → Text → ℤ → ℤ → Agent → Agent
  on_message f group_name deliver num_msgs max_wait_ms agent = record agent {
    executor = some f;
    group_name = group_name;
    deliver = deliver;
    num_msgs = num_msgs;
    max_wait_ms = max_wait_ms;
  }

  abbrev pub mq9_or_raise : Agent → Result (Mq9Client S)
  mq9_or_raise agent =
      or_raise agent.mq9 (runtime_error (codes "Not connected — call connect() first."))

-- An agent is named by its mailbox or by its entry in the registry.
pub data Address : Type 0 where
  mailbox : Text → Address
  entry : Fields → Address

abbrev no_mailbox : {A : Type 0} → Result A
no_mailbox = raise (value_error (codes "agent must be a mailbox string or dict with 'mailbox' key"))

abbrev non_empty : Text → Result Text
non_empty [] = no_mailbox
non_empty t = ok t

-- `agent.get("mailbox", "")`. A value that is no text would go on into a subject; the registry
-- holds texts, and the model refuses others.
abbrev pub entry_mailbox : Option Json → Result Text
entry_mailbox (some (str t)) = non_empty t
entry_mailbox _ = no_mailbox

unfoldable pub mailbox_of : Address → Result Text
mailbox_of (mailbox t) = non_empty t
mailbox_of (entry d) = entry_mailbox (get (codes "mailbox") d)
