-- ===== src/Demo/Graph.antt =====
-- langchain-mq9/examples/langgraph_agent.py: a graph of two nodes that sends a task and polls for
-- its result. LangGraph runs a node after the other along the edges; what the nodes print is left
-- out.
pub mod Replies
use mq.Base.{
  ℕ, zero, suc, Text, codes, ◌==◌, ◌&&◌, ◌||◌, not, ℤ, pos, Bool, true, false, Option, none, some,
  List, [], ◌∷◌, ◌++◌, if◌then◌else◌, ◌≡◌, refl,
}
use mq.Base.Decimal.Parse.{value_from}
use mq.Py.Async.{Async, pure, lift, ◌>>=◌, ◌>>◌}
use mq.Client.Types.{Env}
use mq.A2a.Calls.{address_text}
use mq.Langchain.Tools.{
  create_mailbox_tool, send_message_tool, fetch_messages_tool, ack_messages_tool,
}
use mq.Demo.Tools.{find_ids}

abbrev starts_with : Text → Text → Bool
starts_with [] t = true
starts_with (p ∷ ps) [] = false
starts_with (p ∷ ps) (c ∷ t) = (p == c) && starts_with ps t

-- `part in t`
unfoldable pub contains : Text → Text → Bool
contains part [] = starts_with part []
contains part (c ∷ t) = starts_with part (c ∷ t) || contains part t

pub record State : Type 0 where
  pub reply_address : Text
  pub messages : List Text
  pub done : Bool

abbrev pub initial : State
initial = record { reply_address = []; messages = []; done = false }

pub data Node : Type 0 where
  setup_node poll_node end_node : Node

-- `_extract_last_msg_id`, whose `if` takes the number 0 for none
unfoldable pub last_id : List Text → ℕ
last_id [] = 0
last_id (id ∷ ids) = value_from 0 id

-- `"No messages" not in result`
abbrev pub has_reply : Text → Bool
has_reply result = not (contains (codes "No messages") result)

abbrev pub should_continue : State → Node
should_continue state = if state.done then end_node else poll_node

module _ {S : Type 0} (env : Env S) (server : Text) where
  unfoldable pub setup : State → Async S State
  setup state = do
    created ← create_mailbox_tool env server (record { ttl = pos 300 })
    address ← lift (address_text created)
    _ ← send_message_tool env server (record {
      mail_address = codes "task.queue";
      content = codes "{\"task\": \"summarize\", \"reply_to\": \"" ++ (address ++ codes "\"}");
      priority = codes "normal";
    })
    pure (record state { reply_address = address })

  abbrev pub ack_number : Text → ℕ → Async S (Unit {0})
  ack_number address zero = pure tt
  ack_number address (suc n) = do
    _ ←
        ack_messages_tool env server (record {
          mail_address = address;
          group_name = codes "orchestrator";
          msg_id = pos (suc n);
        })
    pure tt

  abbrev pub ack_reply : Text → Text → Bool → Async S (Unit {0})
  ack_reply address result true = ack_number address (last_id (find_ids result))
  ack_reply address result false = pure tt

  unfoldable pub poll_reply : State → Async S State
  poll_reply state = do
    result ← fetch_messages_tool env server (record {
      mail_address = state.reply_address;
      group_name = codes "orchestrator";
      num_msgs = pos 5;
    })
    ack_reply state.reply_address result (has_reply result)
    pure (record state { messages = result ∷ []; done = has_reply result })

  -- A node and the edge that follows it.
  unfoldable pub run_node : Node → State → Async S (Node × State)
  run_node setup_node state = do state' ← setup state; pure (poll_node, state')
  run_node poll_node state = do state' ← poll_reply state; pure (should_continue state', state')
  run_node end_node state = pure (end_node, state)

  -- The first `n` nodes of a run, from a node on.
  unfoldable pub run_nodes : ℕ → Node → State → Async S (Node × State)
  run_nodes zero node state = pure (node, state)
  run_nodes (suc n) node state = do next ← run_node node state; run_nodes n next.0 next.1

contains_examples :
    (contains (codes "No messages") (codes "No messages in 'box'.") ≡ true)
    × (contains (codes "No messages") (codes "1 message(s) from 'No me'") ≡ false)
unfolding contains
contains_examples = (refl, refl)
