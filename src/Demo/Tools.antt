-- ===== src/Demo/Tools.antt =====
-- `manual_demo` of demo/python/langchain_demo.py: the tools called one after the other, without a
-- language model. What it prints is left out.
pub mod Ids
pub mod Acks
pub mod Names
use mq.Base.{
  ℕ, Text, codes, leb, ◌==◌, ◌&&◌, ℤ, pos, Option, none, some, List, [], ◌∷◌, ◌++◌, Bool, ◌≡◌, refl,
  if◌then◌else◌,
}
use mathlib.Core.List.{foldl}
use mq.Base.Decimal.Parse.{value_from}
use mq.Py.Async.{Async, pure, lift, ◌>>=◌, ◌>>◌}
use mq.Client.Types.{Env}
use mq.A2a.Calls.{address_text}
use mq.Langchain.Inputs.{query_messages_input}
use mq.Langchain.Tools.{
  create_mailbox_tool, send_message_tool, fetch_messages_tool, ack_messages_tool,
  agent_register_tool, agent_discover_tool, query_messages_tool,
}

abbrev pub is_digit : ℕ → Bool
is_digit c = leb b'0' c && leb c b'9'

-- Where the search is: what is left of "msg_id=", or the digits after it.
pub data Place : Type 0 where
  expects : ℕ → Text → Place
  number : Text → Place

-- The place after a character that goes on with no match, which may begin one.
abbrev pub restart : ℕ → Place
restart c = if c == b'm' then expects b's' (codes "g_id=") else expects b'm' (codes "sg_id=")

abbrev pub go_on : Text → Place
go_on [] = number []
go_on (p ∷ ps) = expects p ps

abbrev pub push : Text → List Text → List Text
push [] found = found
push (c ∷ s) found = (c ∷ s) ∷ found

-- The place, and the matches, the last one first.
pub record Search : Type 0 where
  pub place : Place
  pub found : List Text

unfoldable pub step : Search → ℕ → Search
step r c = elim r.place [
  | expects p ps ↦ record r { place = if c == p then go_on ps else restart c }
  | number s ↦
      if is_digit c
      then record r { place = number (s ++ c ∷ []) }
      else record { place = restart c; found = push s r.found }
]

abbrev pub finish : Search → List Text
finish r = elim r.place [ expects p ps ↦ r.found | number s ↦ push s r.found ]

abbrev pub fresh : List Text → Search
fresh found = record { place = expects b'm' (codes "sg_id="); found = found }

-- `re.findall(r"msg_id=(\d+)", text)`, the last match first. Of the digits that `\d` stands for,
-- those of ASCII.
unfoldable pub find_ids : Text → List Text
find_ids text = finish (foldl step (fresh []) text)

module _ {S : Type 0} (env : Env S) (server : Text) where
  -- `if ids`
  unfoldable pub ack_found : Text → List Text → Async S (Unit {0})
  ack_found address [] = pure tt
  ack_found address (id ∷ ids) = do
    _ ← ack_messages_tool env server (record {
      mail_address = address;
      group_name = codes "langchain";
      msg_id = pos (value_from 0 id);
    })
    pure tt

  unfoldable pub manual_demo : Async S (Unit {0})
  manual_demo = do
    created ← create_mailbox_tool env server (record { ttl = pos 300 })
    address ← lift (address_text created)
    _ ← send_message_tool env server (record {
      mail_address = address;
      content = codes "{\"task\": \"summarize\", \"data\": \"Hello from LangChain\"}";
      priority = codes "normal";
    })
    result ←
        fetch_messages_tool env server
          (record { mail_address = address; group_name = codes "langchain"; num_msgs = pos 5 })
    ack_found address (find_ids result)
    _ ← agent_register_tool env server (record {
      name = codes "demo.langchain.agent";
      capabilities = codes "Demo agent for testing LangChain mq9 toolkit integration";
      ttl = pos 300;
    })
    _ ← agent_discover_tool env server (record { query = codes "demo langchain"; limit = pos 5 })
    _ ← query_messages_tool env server (query_messages_input address)
    pure tt

find_ids_example :
    find_ids (codes "1 (last msg_id=12):\n  msg_id=7  msg_id=x mmsg_id=30")
    ≡ codes "30" ∷ codes "7" ∷ codes "12" ∷ []
unfolding find_ids step
find_ids_example = refl
