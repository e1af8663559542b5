-- ===== src/Demo/Registry.antt =====
-- demo/python/agent_demo.py: an agent in the registry, from its registration to its end. What the
-- demo prints is left out, but for what looking at the agents that were found can raise.
use mq.Base.{Text, codes, ℤ, pos, Option, none, some, List, [], ◌∷◌, if◌then◌else◌}
use mq.Py.Exceptions.{Result, ok, raise, type_error, map_result}
use mq.Py.Json.{Json, str, arr, obj, Fields, field, end, get, truthy}
use mq.Py.Async.{Async, pure, lift, ◌>>=◌, ◌>>◌}
use mq.Client.Types.{Env, Mq9Client, of_dict}
use mq.Client.Codec.{as_dict, or_null}
use mq.Client.Headers.{default_options}
use mq.Client.Messaging.{mailbox_create, send}
use mq.Client.Agents.{agent_register, agent_unregister, agent_report, agent_discover}
use mq.A2a.Calls.{address_text}
use mq.Langchain.Session.{with_client}
use mq.Langchain.Show.{agent_list}

abbrev demo_card : Text → Fields
demo_card address = field (codes "name") (str (codes "demo.python.translator")) (
    field (codes "mailbox") (str address) (
      field (codes "payload")
        (str (
          codes
            "Multilingual translation agent. Supports EN, ZH, JA, KO. Input: text + target language. Output: translated text."))
        end))

abbrev demo_report : Text → Fields
demo_report address = field (codes "name") (str (codes "demo.python.translator")) (
    field (codes "mailbox") (str address) (
      field (codes "report_info") (str (codes "running, processed: 128 tasks, avg latency: 320ms"))
        end))

abbrev demo_task : Json → Fields
demo_task reply_address =
    field (codes "text") (str (codes "你好，世界"))
      (field (codes "target_lang") (str (codes "en")) (field (codes "reply_to") reply_address end))

-- `len(agents)`, and the `get` of each of them.
unfoldable pub look_at : Json → Result (List Fields)
look_at agents = elim (agent_list agents) [
  | ok entries ↦ map_result as_dict entries
  | raise e ↦ raise e
]

-- `len(all_agents)`
abbrev pub has_len : Json → Result (Unit {0})
has_len (arr vs) = ok tt
has_len (str t) = ok tt
has_len (obj d) = ok tt
has_len _ = raise (type_error (codes "no len()"))

-- `agents[0].get("mailbox")`, if there is an agent.
abbrev pub target_of : List Fields → Json
target_of [] = mq.Py.Json.null
target_of (d ∷ entries) = or_null (get (codes "mailbox") d)

module _ {S : Type 0} (env : Env S) where
  abbrev pub find : Mq9Client S → Option Text → Option Text → ℤ → Async S (List Fields)
  find client text semantic limit = do
    agents ← agent_discover env client text semantic limit (pos 1)
    lift (look_at agents)

  -- `if target`: the task, with a mailbox for the reply. A target that is no text, which
  -- protocol.md excludes, is refused.
  unfoldable pub send_task : Mq9Client S → Json → Async S (Unit {0})
  send_task client target =
      if truthy target
      then (do
        reply_address ← mailbox_create env client none (pos 60)
        address ← lift (address_text target)
        _ ← send env client address (of_dict (demo_task reply_address)) default_options
        pure tt)
      else pure tt

  -- The body of `async with`.
  unfoldable pub session : Mq9Client S → Async S (Unit {0})
  session client = do
    created ← mailbox_create env client (some (codes "demo.python.translator")) (pos 300)
    address ← lift (address_text created)
    agent_register env client (demo_card address)
    agent_report env client (demo_report address)
    _ ← find client (some (codes "translator")) none (pos 5)
    agents ← find client none (some (codes "I need to translate Chinese text into English")) (pos 5)
    send_task client (target_of agents)
    all_agents ← agent_discover env client none none (pos 20) (pos 1)
    lift (has_len all_agents)
    agent_unregister env client address

  unfoldable pub main : Text → Async S (Unit {0})
  main server = with_client env server session
