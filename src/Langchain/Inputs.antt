-- ===== src/Langchain/Inputs.antt =====
-- The input schemas of the tools, langchain-mq9/langchain_mq9/tools.py. A schema with defaults is a
-- record, and the value that it has when only the required fields are given.
use mq.Base.{Text, codes, ℤ, pos, []}

pub record CreateMailboxInput : Type 0 where
  pub ttl : ℤ

abbrev pub create_mailbox_input : CreateMailboxInput
create_mailbox_input = record { ttl = pos 3600 }

pub record SendMessageInput : Type 0 where
  pub mail_address : Text
  pub content : Text
  pub priority : Text

abbrev pub send_message_input : Text → Text → SendMessageInput
send_message_input mail_address content = record {
  mail_address = mail_address;
  content = content;
  priority = codes "normal";
}

pub record FetchMessagesInput : Type 0 where
  pub mail_address : Text
  pub group_name : Text
  pub num_msgs : ℤ

abbrev pub fetch_messages_input : Text → FetchMessagesInput
fetch_messages_input mail_address = record {
  mail_address = mail_address;
  group_name = codes "langchain";
  num_msgs = pos 10;
}

pub record AckInput : Type 0 where
  pub mail_address : Text
  pub group_name : Text
  pub msg_id : ℤ

pub record QueryMessagesInput : Type 0 where
  pub mail_address : Text
  pub key : Text
  pub limit : ℤ

abbrev pub query_messages_input : Text → QueryMessagesInput
query_messages_input mail_address = record { mail_address = mail_address; key = []; limit = pos 20 }

pub record DeleteMessageInput : Type 0 where
  pub mail_address : Text
  pub msg_id : ℤ

pub record AgentRegisterInput : Type 0 where
  pub name : Text
  pub capabilities : Text
  pub ttl : ℤ

abbrev pub agent_register_input : Text → Text → AgentRegisterInput
agent_register_input name capabilities = record {
  name = name;
  capabilities = capabilities;
  ttl = pos 3600;
}

pub record AgentDiscoverInput : Type 0 where
  pub query : Text
  pub limit : ℤ

abbrev pub agent_discover_input : Text → AgentDiscoverInput
agent_discover_input query = record { query = query; limit = pos 10 }
