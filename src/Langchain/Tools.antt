-- ===== src/Langchain/Tools.antt =====
-- The coroutines `_arun` of the tools, langchain-mq9/langchain_mq9/tools.py. `_run` starts an event
-- loop for the same coroutine.
pub mod Closes
pub mod Priorities
pub mod Search
pub mod Sends
use mq.Base.{
  ℕ, Text, codes, ltb, text_eq, ℤ, pos, Bool, true, false, Option, none, some, List, [], ◌∷◌, ◌++◌,
  length, is_empty, if◌then◌else◌,
}
use mq.Base.Decimal.{decimal, str_int}
use mq.Py.Exceptions.{Result, ok, raise}
use mq.Py.Json.{Json, str, int, Fields, field, end, truthy}
use mq.Py.Async.{Async, pure, lift, ◌>>=◌, ◌>>◌}
use mq.Py.Utf8.{utf8_encode}
use mq.Py.Text.{join, split}
use mq.Client.Types.{Env, Mq9Client, Message, Priority, normal, value, of_bytes}
use mq.Client.Codec.{priority_of}
use mq.Client.Headers.{Options, default_options}
use mq.Client.Messaging.{
  mailbox_create, send, fetch, ack, query, delete, FetchOptions, default_fetch,
}
use mq.Client.Agents.{agent_register, agent_discover}
use mq.Langchain.Inputs.{
  CreateMailboxInput, SendMessageInput, FetchMessagesInput, AckInput, QueryMessagesInput,
  DeleteMessageInput, AgentRegisterInput, AgentDiscoverInput,
}
use mq.Langchain.Session.{with_client}
use mq.Langchain.Show.{newline, last, message_lines, report_agents}

-- `try: Priority(priority)`, `except ValueError: Priority.NORMAL`
abbrev or_normal : Result Priority → Priority
or_normal (ok p) = p
or_normal (raise e) = normal

unfoldable pub parse_priority : Text → Priority
parse_priority t = or_normal (priority_of (str t))

-- `key or None`
abbrev pub none_if_empty : Text → Option Text
none_if_empty t = if is_empty t then none else some t

-- `len(query.split()) > 3`
unfoldable pub is_semantic : Text → Bool
is_semantic query = ltb 3 (length (split query))

-- `query if is_semantic and query else None`
abbrev pub semantic_of : Text → Option Text
semantic_of query = if is_semantic query then none_if_empty query else none

-- `query if not is_semantic and query else None`
abbrev pub text_of : Text → Option Text
text_of query = if is_semantic query then none else none_if_empty query

-- `if not messages`, and the text for the others
abbrev pub report_messages : (List Message → Result Text) → Text → List Message → Result Text
report_messages show nothing [] = ok nothing
report_messages show nothing (msg ∷ msgs) = show (msg ∷ msgs)

abbrev pub no_messages : Text → Text
no_messages mail_address = codes "No messages in '" ++ (mail_address ++ codes "'.")

abbrev pub last_id : List Message → Json
last_id [] = mq.Py.Json.null
last_id (msg ∷ msgs) = (last msg msgs).msg_id

-- The arguments of `fetch` that the tool gives.
abbrev pub fetch_options : FetchMessagesInput → FetchOptions
fetch_options i = record default_fetch {
  group_name = some i.group_name;
  deliver = codes "earliest";
  num_msgs = i.num_msgs;
}

-- The card that the register tool sends.
abbrev pub agent_card : Text → Json → Text → Fields
agent_card name address capabilities =
    field (codes "name") (str name)
      (field (codes "mailbox") address (field (codes "payload") (str capabilities) end))

module _ {S : Type 0} (env : Env S) (server : Text) where
  -- The address as the reply has it.
  unfoldable pub create_mailbox_tool : CreateMailboxInput → Async S Json
  create_mailbox_tool i = with_client env server λ client. mailbox_create env client none i.ttl

  unfoldable pub send_message_tool : SendMessageInput → Async S Text
  send_message_tool i = do
    let p = parse_priority i.priority
    msg_id ← with_client env server λ client. do
      content ← lift (utf8_encode i.content)
      send env client i.mail_address (of_bytes content) (record default_options { priority = p })
    pure (
        codes "sent to '"
        ++ (i.mail_address
            ++ (codes "' priority='" ++ (value p ++ (codes "' msg_id=" ++ env.format msg_id)))))

  unfoldable pub fetch_header : Text → List Message → Text
  fetch_header mail_address messages =
      decimal (length messages)
      ++ (codes " message(s) from '"
          ++ (mail_address
              ++ (codes "' (last msg_id=" ++ (env.format (last_id messages) ++ codes "):"))))

  unfoldable pub fetch_messages_tool : FetchMessagesInput → Async S Text
  fetch_messages_tool i = do
    messages ← with_client env server λ client. fetch env client i.mail_address (fetch_options i)
    lift (
        report_messages
          (λ msgs. message_lines env.loads env.format (fetch_header i.mail_address msgs) msgs)
          (no_messages i.mail_address) messages)

  unfoldable pub ack_messages_tool : AckInput → Async S Text
  ack_messages_tool i = do
    with_client env server λ client. ack env client i.mail_address i.group_name (int i.msg_id)
    pure (
        codes "ACKed msg_id="
        ++ (str_int i.msg_id
            ++ (codes " for group='"
                ++ (i.group_name ++ (codes "' on '" ++ (i.mail_address ++ codes "'"))))))

  unfoldable pub query_header : Text → List Message → Text
  query_header mail_address messages =
      decimal (length messages)
      ++ (codes " message(s) in '" ++ (mail_address ++ codes "' (read-only, offset unchanged):"))

  unfoldable pub query_messages_tool : QueryMessagesInput → Async S Text
  query_messages_tool i = do
    messages ←
        with_client env server
          λ client. query env client i.mail_address (none_if_empty i.key) (some i.limit) none
    lift (
        report_messages
          (λ msgs. message_lines env.loads env.format (query_header i.mail_address msgs) msgs)
          (no_messages i.mail_address) messages)

  unfoldable pub delete_message_tool : DeleteMessageInput → Async S Text
  delete_message_tool i = do
    with_client env server λ client. delete env client i.mail_address (int i.msg_id)
    pure (
        codes "Deleted msg_id="
        ++ (str_int i.msg_id ++ (codes " from '" ++ (i.mail_address ++ codes "'"))))

  unfoldable pub agent_register_tool : AgentRegisterInput → Async S Text
  agent_register_tool i = do
    address ← with_client env server λ client. do
      created ← mailbox_create env client (some i.name) i.ttl
      agent_register env client (agent_card i.name created i.capabilities)
      pure created
    pure (
        codes "Registered agent '"
        ++ (i.name ++ (codes "' with mailbox '" ++ (env.format address ++ codes "'"))))

  unfoldable pub agent_discover_tool : AgentDiscoverInput → Async S Text
  agent_discover_tool i = do
    agents ←
        with_client env server λ client.
          agent_discover env client (text_of i.query) (semantic_of i.query) i.limit (pos 1)
    lift (report_agents env.loads env.format agents)
