-- ===== src/Langchain/Show.antt =====
-- The texts that the tools return for messages and for registry entries,
-- langchain-mq9/langchain_mq9/tools.py.
pub mod Lines
use mq.Base.{
  ℕ, zero, suc, Text, codes, Bool, Option, none, some, List, [], ◌∷◌, ◌++◌, length, if◌then◌else◌,
}
use mq.Base.Decimal.{decimal}
use mq.Py.Exceptions.{Result, ok, raise, attribute_error, type_error, map_result, ◌>>=◌}
use mq.Py.Json.{Json, null, bool, int, str, arr, obj, Fields, get, truthy, to_list, of_list}
use mq.Py.Text.{join}
use mq.Py.Utf8.Decode.{decode_replace}
use mq.Client.Types.{Payload, decoded, passed, Message, value}
use mq.Client.Codec.{or_null, as_dict}

abbrev pub newline : Text
newline = 10 ∷ []

-- `xs[-1]` of a list that is not empty
abbrev pub last : Message → List Message → Message
last msg [] = msg
last msg (next ∷ msgs) = last next msgs

-- `xs[:n]`
abbrev pub take {ℓ} : {A : Type ℓ} → ℕ → List A → List A
take zero xs = []
take (suc n) [] = []
take (suc n) (x ∷ xs) = x ∷ take n xs

-- `len(agents)` and the loop over `agents`, which is truthy: a number has no length, and the items
-- of a `str` or a `dict` are strings, which have no `get`.
unfoldable pub agent_list : Json → Result (List Json)
agent_list (arr vs) = ok (to_list vs)
agent_list (str t) = raise (attribute_error (codes "get"))
agent_list (obj d) = raise (attribute_error (codes "get"))
agent_list _ = raise (type_error (codes "no len()"))

module _ (loads : mq.Base.Bytes → Result Json) (format : Json → Text) where
  -- `try: json.loads(payload)`, `except Exception: payload.decode(errors="replace")`, printed.
  -- A payload that was no `str` in the reply is no `bytes` either: it has no `decode`.
  unfoldable pub content : Payload → Result Text
  content (decoded b) = elim (loads b) [ ok v ↦ ok (format v) | raise _ ↦ ok (decode_replace b) ]
  content (passed v) = raise (attribute_error (codes "decode"))

  unfoldable pub message_line : Message → Result Text
  message_line msg = do
    text ← content msg.payload
    ok (
        codes "  msg_id="
        ++ (format msg.msg_id
            ++ (codes "  priority=" ++ (value msg.priority ++ (codes "  content=" ++ text)))))

  -- The header and the lines of the messages.
  unfoldable pub message_lines : Text → List Message → Result Text
  message_lines header msgs = do
    lines ← map_result message_line msgs
    ok (join newline (header ∷ lines))

  -- `a["payload"][:120]`
  unfoldable pub capabilities : Json → Result Text
  capabilities (str t) = ok (take 120 t)
  capabilities (arr vs) = ok (format (arr (of_list (take 120 (to_list vs)))))
  capabilities _ = raise (type_error (codes "no slices"))

  -- The lines of one entry of the registry.
  unfoldable pub agent_lines : Json → Result (List Text)
  agent_lines a = do
    entry ← as_dict a
    let name = format (or_null (get (codes "name") entry))
    let mailbox = format (or_null (get (codes "mailbox") entry))
    let first = codes "  name=" ++ (name ++ (codes "  mailbox=" ++ mailbox))
    if truthy (or_null (get (codes "payload") entry))
        then (do
          text ← capabilities (or_null (get (codes "payload") entry))
          ok (first ∷ (codes "    capabilities: " ++ text) ∷ []))
        else ok (first ∷ [])

  unfoldable pub all_agent_lines : List Json → Result (List Text)
  all_agent_lines [] = ok []
  all_agent_lines (a ∷ agents) = do
    lines ← agent_lines a
    rest ← all_agent_lines agents
    ok (lines ++ rest)

  -- `if not agents`, and the lines of the entries
  unfoldable pub report_agents : Json → Result Text
  report_agents agents =
      if truthy agents
      then (do
        entries ← agent_list agents
        lines ← all_agent_lines entries
        let header = codes "Found " ++ (decimal (length entries) ++ codes " agent(s):")
        ok (join newline (header ∷ lines)))
      else ok (codes "No agents found.")
