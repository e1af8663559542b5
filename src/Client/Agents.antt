-- ===== src/Client/Agents.antt =====
-- The registry operations of `Mq9Client`.
use mq.Base.{Text, codes, ℤ, Option, if◌then◌else◌}
use mq.Py.Json.{Json, str, int, Fields, end, field, get, set, truthy, arr, nil}
use mq.Py.Async.{Async, pure, lift, ◌>>=◌}
use mq.Client.Types.{Env, Mq9Client, of_dict}
use mq.Client.Codec.{encode, or_null}
use mq.Client.Subjects.{
  subject_agent_register, subject_agent_unregister, subject_agent_report, subject_agent_discover,
}
use mq.Client.Connection.{request}
use mq.Client.Messaging.{set_optional}

unfoldable pub discover_body : Option Text → Option Text → ℤ → ℤ → Fields
unfolding set
discover_body text semantic limit page = set_optional (codes "semantic") str semantic (
    set_optional (codes "text") str text
      (field (codes "limit") (int limit) (field (codes "page") (int page) end)))

-- `resp.get("agents") or []`
unfoldable pub agents_of : Fields → Json
agents_of resp = let v = or_null (get (codes "agents") resp) in if truthy v then v else arr nil

module _ {S : Type 0} (env : Env S) (c : Mq9Client S) where
  abbrev call : Text → Fields → Async S (Unit {0})
  call subject body = do
    payload ← lift (encode (of_dict body))
    _ ← request env c subject payload
    pure tt

  unfoldable pub agent_register : Fields → Async S (Unit {0})
  agent_register agent_card = call subject_agent_register agent_card

  unfoldable pub agent_unregister : Text → Async S (Unit {0})
  agent_unregister mailbox =
      call subject_agent_unregister (field (codes "mailbox") (str mailbox) end)

  unfoldable pub agent_report : Fields → Async S (Unit {0})
  agent_report report = call subject_agent_report report

  unfoldable pub agent_discover : Option Text → Option Text → ℤ → ℤ → Async S Json
  agent_discover text semantic limit page = do
    payload ← lift (encode (of_dict (discover_body text semantic limit page)))
    resp ← request env c subject_agent_discover payload
    pure (agents_of resp)
