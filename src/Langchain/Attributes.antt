-- ===== src/Langchain/Attributes.antt =====
-- The attributes of the tool classes, langchain-mq9/langchain_mq9/tools.py: what a language model
-- is told of a tool, the fields of its schema, and the parameters of its coroutine.
use mq.Base.{Text, codes, pos, Option, none, some, List, [], ◌∷◌, ◌++◌}
use mq.Py.Json.{Json, int, str}
use mq.Langchain.Toolkit.{
  ToolClass, create_mailbox, send_message, fetch_messages, ack_messages, query_messages,
  delete_message, agent_register, agent_discover,
}

-- A field of a schema, or a parameter of a function, with its default.
pub record Parameter : Type 0 where
  pub name : Text
  pub default : Option Json

abbrev required : Text → Parameter
required name = record { name = name; default = none }

abbrev optional : Text → Json → Parameter
optional name v = record { name = name; default = some v }

pub record Attributes : Type 0 where
  pub name : Text
  pub description : Text
  pub args_schema : List Parameter
  pub server : Text

abbrev default_server : Text
default_server = codes "nats://localhost:4222"

abbrev create_mailbox_attributes : Attributes
create_mailbox_attributes = record {
  name = codes "create_mailbox";
  description =
      codes "Create a new private mq9 mailbox. Returns a mail_address that acts as the "
      ++ (codes "communication address. Other agents send messages to this address; you fetch "
          ++ (codes
                "them later with fetch_messages. The mailbox persists messages until TTL expires — "
              ++ (codes "senders do not need to be online when you fetch.")));
  args_schema = optional (codes "ttl") (int (pos 3600)) ∷ [];
  server = default_server;
}

abbrev send_message_attributes : Attributes
send_message_attributes = record {
  name = codes "send_message";
  description =
      codes "Send an asynchronous message to another agent via its mq9 mail_address. "
      ++ (codes "The recipient does not need to be online — messages are stored and delivered "
          ++ (codes "when the recipient calls fetch_messages. "
              ++ (codes
                    "Use priority='critical' for abort signals, 'urgent' for time-sensitive tasks, "
                  ++ (codes "'normal' (default) for routine messages."))));
  args_schema =
      required (codes "mail_address")
      ∷ required (codes "content")
      ∷ optional (codes "priority") (str (codes "normal"))
      ∷ [];
  server = default_server;
}

abbrev fetch_messages_attributes : Attributes
fetch_messages_attributes = record {
  name = codes "fetch_messages";
  description =
      codes "Pull pending messages from a mq9 mailbox. Messages are returned in priority order "
      ++ (codes "(critical → urgent → normal). Passing a group_name enables stateful consumption: "
          ++ (codes
                "the broker records the offset and the next fetch resumes from where you left off. "
              ++ (codes "After processing, call ack_messages to advance the offset. "
                  ++ (codes
                      "Use this to check for task results, instructions, or any incoming messages."))));
  args_schema =
      required (codes "mail_address")
      ∷ optional (codes "group_name") (str (codes "langchain"))
      ∷ optional (codes "num_msgs") (int (pos 10))
      ∷ [];
  server = default_server;
}

abbrev ack_messages_attributes : Attributes
ack_messages_attributes = record {
  name = codes "ack_messages";
  description =
      codes
        "Acknowledge processed messages by passing the msg_id of the last message in the batch. "
      ++ (codes
            "The broker advances the consumer group offset to this msg_id — the next fetch_messages "
          ++ (codes "call will return only messages after this point. "
              ++ (codes
                  "Always call this after successfully processing a fetch_messages result.")));
  args_schema =
      required (codes "mail_address")
      ∷ required (codes "group_name")
      ∷ required (codes "msg_id")
      ∷ [];
  server = default_server;
}

abbrev query_messages_attributes : Attributes
query_messages_attributes = record {
  name = codes "query_messages";
  description =
      codes "Inspect messages currently stored in a mq9 mailbox without consuming them. "
      ++ (codes "The consumption offset is NOT affected — safe to call at any time for debugging "
          ++ (codes "or state inspection. Optionally filter by dedup key to get the latest message "
              ++ (codes "with that key (e.g. key='status' returns the current task status).")));
  args_schema =
      required (codes "mail_address")
      ∷ optional (codes "key") (str (codes ""))
      ∷ optional (codes "limit") (int (pos 20))
      ∷ [];
  server = default_server;
}

abbrev delete_message_attributes : Attributes
delete_message_attributes = record {
  name = codes "delete_message";
  description =
      codes "Permanently delete a specific message from a mq9 mailbox by its msg_id. "
      ++ (codes "Use query_messages to find the msg_id before deleting. "
          ++ (codes "Deletion is immediate and cannot be undone."));
  args_schema = required (codes "mail_address") ∷ required (codes "msg_id") ∷ [];
  server = default_server;
}

abbrev agent_register_attributes : Attributes
agent_register_attributes = record {
  name = codes "agent_register";
  description =
      codes "Register this agent in the mq9 built-in Agent registry with a capability description. "
      ++ (codes "Other agents can then discover this agent by full-text or semantic search. "
          ++ (codes "Call this at startup. Call agent_unregister at shutdown."));
  args_schema =
      required (codes "name")
      ∷ required (codes "capabilities")
      ∷ optional (codes "ttl") (int (pos 3600))
      ∷ [];
  server = default_server;
}

abbrev agent_discover_attributes : Attributes
agent_discover_attributes = record {
  name = codes "agent_discover";
  description =
      codes "Search the mq9 Agent registry for agents that match a capability description. "
      ++ (codes "Phrase your query as a natural language sentence for semantic vector search "
          ++ (codes "(e.g. 'find an agent that can translate Chinese to English'). "
              ++ (codes "Use keywords for full-text search (e.g. 'translator'). "
                  ++ (codes "Leave query empty to list all registered agents. "
                      ++ (codes
                          "Returns each agent's name and mailbox address — send tasks directly to the mailbox.")))));
  args_schema = required (codes "query") ∷ optional (codes "limit") (int (pos 10)) ∷ [];
  server = default_server;
}

abbrev pub attributes : ToolClass → Attributes
attributes create_mailbox = create_mailbox_attributes
attributes send_message = send_message_attributes
attributes fetch_messages = fetch_messages_attributes
attributes ack_messages = ack_messages_attributes
attributes query_messages = query_messages_attributes
attributes delete_message = delete_message_attributes
attributes agent_register = agent_register_attributes
attributes agent_discover = agent_discover_attributes

-- The parameters of `_arun`, which are those of `_run`; further ones are dropped by `**_`.
abbrev pub arun_parameters : ToolClass → List Parameter
arun_parameters create_mailbox = optional (codes "ttl") (int (pos 3600)) ∷ []
arun_parameters send_message =
    required (codes "mail_address")
    ∷ required (codes "content")
    ∷ optional (codes "priority") (str (codes "normal"))
    ∷ []
arun_parameters fetch_messages =
    required (codes "mail_address")
    ∷ optional (codes "group_name") (str (codes "langchain"))
    ∷ optional (codes "num_msgs") (int (pos 10))
    ∷ []
arun_parameters ack_messages =
    required (codes "mail_address") ∷ required (codes "group_name") ∷ required (codes "msg_id") ∷ []
arun_parameters query_messages =
    required (codes "mail_address")
    ∷ optional (codes "key") (str (codes ""))
    ∷ optional (codes "limit") (int (pos 20))
    ∷ []
arun_parameters delete_message = required (codes "mail_address") ∷ required (codes "msg_id") ∷ []
arun_parameters agent_register =
    required (codes "name")
    ∷ required (codes "capabilities")
    ∷ optional (codes "ttl") (int (pos 3600))
    ∷ []
arun_parameters agent_discover =
    optional (codes "query") (str (codes "")) ∷ optional (codes "limit") (int (pos 10)) ∷ []
