-- ===== src/Tests/Broker.antt =====
-- A small network with a broker that accepts everything, and what an agent's life cycle does on it.
use mq.Base.{
  ℕ, Text, Bytes, codes, text_eq, ℤ, pos, Bool, false, Option, some, none, [], ◌∷◌, ◌++◌, ◌≡◌, refl,
  if◌then◌else◌,
}
use mq.Py.Exceptions.{Result, ok, raise, value_error}
use mq.Py.Json.{Json, str, obj, arr, nil, cons, Fields, field, end, get, truthy}
use mq.Client.Types.{Nats, Env, Mq9Client}
use mq.Client.Codec.{check_response, decode_response}
use mq.Client.Connection.{
  new_client, request, request_with_headers, exchange, publish_and_wait, wait_for,
}
use mq.Client.Subjects.{subject_agent_discover}
use mq.Client.Messaging.{mailbox_create, mailbox_create_body}
use mq.Client.Agents.{agent_register, agent_unregister}
use mq.A2a.Lifecycle.{World, create_mailbox, register, unregister, close, end_task}
use mq.Tests.A2a.{sdk}
use mq.Tests.Store.{encodes}

-- A network with a broker that accepts everything, and that answers a search with bytes that are no
-- JSON if it is broken.
abbrev answer : Bool → Text → Bytes
answer broken t =
    if text_eq t subject_agent_discover then (if broken then [] else 1 ∷ []) else 1 ∷ []

abbrev line : Bool → Nats ℕ
line broken = record {
  request = λ t b ms s. (ok (answer broken t), s);
  new_inbox = λ s. (ok (codes "inbox"), s);
  subscribe = λ t s. (ok 1, s);
  publish = λ t b r h s. (ok tt, s);
  deliveries = λ k ms s. (ok ((1 ∷ []) ∷ []), s);
  unsubscribe = λ k s. (ok tt, s);
  is_closed = λ s. (ok false, s);
  drain = λ s. (ok tt, s);
}

abbrev pub one_agent : Json
one_agent = arr (cons (obj (field (codes "mailbox") (str (codes "translator")) end)) nil)

-- One object that serves as the reply to every request.
abbrev pub reply : Fields
reply = field (codes "mail_address") (str (codes "box")) (field (codes "agents") one_agent end)

abbrev load : Bytes → Result Json
load [] = raise (value_error [])
load (c ∷ b) = ok (obj reply)

abbrev pub env : Bool → Env ℕ
env broken = record {
  connect = λ server attempts delay s. (ok (line broken), s);
  loads = load;
  sleep = λ ms s. (ok tt, s);
  format = λ v. [];
}

abbrev pub client_on : Bool → Mq9Client ℕ
client_on broken = record (new_client (codes "nats://localhost:4222") 5000) {
  nc = some (line broken);
}

mailbox_created :
    (b : Bool) (name : Text) (ttl : ℤ) (s : ℕ)
    → (mailbox_create (env b) (client_on b) (some name) ttl s).0 ≡ ok (str (codes "box"))
unfolding mailbox_create request decode_response check_response get truthy text_eq
mailbox_created b name ttl s = rw (encodes (mailbox_create_body (some name) ttl))

registration_accepted :
    (b : Bool) (body : Fields) (s : ℕ) → (agent_register (env b) (client_on b) body s).0 ≡ ok tt
unfolding agent_register request decode_response check_response get truthy text_eq
registration_accepted b body s = rw (encodes body)

pub mailbox_made :
    (b : Bool) (name : Text) (w : World sdk ℕ)
    → w.agent.mq9 ≡ some (client_on b)
    → (create_mailbox sdk (env b) name (pos 0) w).0 ≡ ok (codes "box")
unfolding create_mailbox
mailbox_made b name w e =
    rw (e, mailbox_created b name (pos 0), mailbox_created b (name ++ codes ".tasks") (pos 0))

-- Connected, with a mailbox.
abbrev pub IsMade : Bool → World sdk ℕ → Type 0
IsMade b w = (w.agent.mq9 ≡ some (client_on b)) × (w.agent.mailbox ≡ some (codes "box"))

pub mailbox_kept :
    (b : Bool) (name : Text) (w : World sdk ℕ)
    → w.agent.mq9 ≡ some (client_on b)
    → IsMade b (create_mailbox sdk (env b) name (pos 0) w).1
unfolding create_mailbox
mailbox_kept b name w e =
    rw (e, mailbox_created b name (pos 0), mailbox_created b (name ++ codes ".tasks") (pos 0))
      (refl, refl)

pub registration_made :
    (b : Bool) (card : Text) (w : World sdk ℕ)
    → IsMade b w
    → (register sdk (env b) card w).0 ≡ ok tt
unfolding register
registration_made b card w e = rw (e.0, e.1, registration_accepted b)

pub registration_kept :
    (b : Bool) (card : Text) (w : World sdk ℕ)
    → IsMade b w
    → IsMade b (register sdk (env b) card w).1
unfolding register
registration_kept b card w e = rw (e.0, e.1, registration_accepted b) (refl, refl)

unregistration_accepted :
    (b : Bool) (mailbox : Text) (s : ℕ)
    → (agent_unregister (env b) (client_on b) mailbox s).0 ≡ ok tt
unfolding agent_unregister request decode_response check_response get truthy text_eq
unregistration_accepted b mailbox s = rw (encodes (field (codes "mailbox") (str mailbox) end))

pub unregister_returns :
    (b : Bool) (w : World sdk ℕ) → IsMade b w → (unregister sdk (env b) w).0 ≡ ok tt
unfolding unregister end_task
unregister_returns b w e = by_task w.agent.heartbeat_task refl
  where
    by_task : (o : Option ℕ) → w.agent.heartbeat_task ≡ o → (unregister sdk (env b) w).0 ≡ ok tt
    by_task none h = rw (h, e.0, e.1, unregistration_accepted b)
    by_task (some k) h = rw (h, e.0, e.1, unregistration_accepted b)

pub closes : (b : Bool) (w : World sdk ℕ) → IsMade b w → (close sdk (env b) w).0 ≡ ok tt
unfolding close end_task mq.Client.Connection.close
closes b w e = by_task w.agent.consumer refl
  where
    by_task : (o : Option ℕ) → w.agent.consumer ≡ o → (close sdk (env b) w).0 ≡ ok tt
    by_task none h = rw (h, e.0)
    by_task (some k) h = rw (h, e.0)

pub unregister_keeps :
    (b : Bool) (w : World sdk ℕ) → IsMade b w → IsMade b (unregister sdk (env b) w).1
unfolding unregister end_task
unregister_keeps b w e = by_task w.agent.heartbeat_task refl
  where
    by_task : (o : Option ℕ) → w.agent.heartbeat_task ≡ o → IsMade b (unregister sdk (env b) w).1
    by_task none h = rw (h) e
    by_task (some k) h = rw (h) e
