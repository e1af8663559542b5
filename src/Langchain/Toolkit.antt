-- ===== src/Langchain/Toolkit.antt =====
-- `Mq9Toolkit`, langchain-mq9/langchain_mq9/toolkit.py: the tools that it makes for one server.
use mq.Base.{Text, List, [], ◌∷◌}

-- The tool classes, by the names of their tools.
pub data ToolClass : Type 0 where
  create_mailbox send_message fetch_messages ack_messages query_messages delete_message : ToolClass
  agent_register agent_discover : ToolClass

pub record Tool : Type 0 where
  pub tool_class : ToolClass
  pub server : Text

abbrev pub tool : Text → ToolClass → Tool
tool server c = record { tool_class = c; server = server }

unfoldable pub get_tools : Text → List Tool
get_tools server =
    tool server create_mailbox
    ∷ tool server send_message
    ∷ tool server fetch_messages
    ∷ tool server ack_messages
    ∷ tool server query_messages
    ∷ tool server delete_message
    ∷ tool server agent_register
    ∷ tool server agent_discover
    ∷ []
