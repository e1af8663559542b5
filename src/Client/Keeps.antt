-- ===== src/Client/Keeps.antt =====
-- A predicate on the state that the calls of nats-py keep is kept by every operation of the client.
use mq.Base.{ℕ, Text, Bytes, ℤ, Bool, true, false, Option, some, ◌≡◌, is_empty, if◌then◌else◌}
use mq.Py.Json.{Json, Fields}
use mq.Py.Dict.{Headers}
use mq.Py.Async.{Async, lift, pure}
use mq.Py.Async.Keeps.{Keeps, Keeps-pure, Keeps-lift, Keeps-bind, Keeps-finally}
use mq.Client.Types.{Nats, Env, Mq9Client, Body}
use mq.Client.Connection.{request, request_with_headers, exchange, publish_and_wait, nc_or_raise}
use mq.Client.Headers.{Options, headers_of}
use mq.Client.Messaging.{mailbox_create, send, fetch, ack, query, delete, FetchOptions}
use mq.Client.Agents.{agent_register, agent_discover, agent_unregister, agent_report}

-- The calls that a request makes keep `P`.
pub record Calls {S : Type 0} (P : S → Type 0) (nc : Nats S) : Type 0 where
  pub requested : (t : Text) (b : Bytes) (ms : ℕ) → Keeps P (nc.request t b ms)
  pub inbox : Keeps P nc.new_inbox
  pub subscribed : (t : Text) → Keeps P (nc.subscribe t)
  pub published : (t : Text) (b : Bytes) (r : Text) (h : Headers) → Keeps P (nc.publish t b r h)
  pub delivered : (k ms : ℕ) → Keeps P (nc.deliveries k ms)
  pub unsubscribed : (k : ℕ) → Keeps P (nc.unsubscribe k)

module _ {S : Type 0} {P : S → Type 0} (env : Env S) (c : Mq9Client S) (nc : Nats S)
    (e : c.nc ≡ some nc) (calls : Calls P nc) where
  Keeps-with_nc :
      {A : Type 0} (k : Nats S → Async S A)
      → Keeps P (k nc)
      → Keeps P (λ s. mq.Py.Async.resume (nc_or_raise c) k s)
  Keeps-with_nc k h = rw e h

  pub request-Keeps : (t : Text) (b : Bytes) → Keeps P (request env c t b)
  unfolding request
  request-Keeps t b =
      Keeps-with_nc _
        (Keeps-bind (nc.request t b c.request_timeout) _ (calls.requested t b _) λ r. Keeps-lift _)

  exchange-Keeps :
      (t : Text) (b : Bytes) (h : Headers) (inbox : Text) (k : ℕ)
      → Keeps P (exchange env nc c.request_timeout t b h inbox k)
  unfolding exchange publish_and_wait
  exchange-Keeps t b h inbox k =
      Keeps-bind _ _
        (Keeps-finally _ (nc.unsubscribe k)
          (Keeps-bind (nc.publish t b inbox h) _ (calls.published t b inbox h) λ _.
            Keeps-bind (nc.deliveries k c.request_timeout) _ (calls.delivered k _)
              λ r. Keeps-lift _)
          (calls.unsubscribed k))
        λ reply. Keeps-lift _

  pub request_with_headers-Keeps :
      (t : Text) (b : Bytes) (h : Headers) → Keeps P (request_with_headers env c t b h)
  unfolding request_with_headers
  request_with_headers-Keeps t b h = Keeps-with_nc _ (
      Keeps-bind nc.new_inbox _ calls.inbox λ inbox.
        Keeps-bind (nc.subscribe inbox) _ (calls.subscribed inbox)
          λ k. exchange-Keeps t b h inbox k)

  pub mailbox_create-Keeps :
      (name : Option Text) (ttl : ℤ) → Keeps P (mailbox_create env c name ttl)
  unfolding mailbox_create
  mailbox_create-Keeps name ttl =
      Keeps-bind (lift _) _ (Keeps-lift _)
        λ b. Keeps-bind (request env c _ b) _ (request-Keeps _ b) λ r. Keeps-lift _

  pub send-Keeps : (t : Text) (payload : Body) (o : Options) → Keeps P (send env c t payload o)
  unfolding send
  send-Keeps t payload o = Keeps-bind (lift _) _ (Keeps-lift _) λ b.
      Keeps-bind _ _ (by_headers (is_empty (headers_of o)) _ b (headers_of o)) λ r. Keeps-lift _
    where
      by_headers :
          (bare : Bool) (t : Text) (b : Bytes) (h : Headers)
          → Keeps P (if bare then request env c t b else request_with_headers env c t b h)
      by_headers true t b h = request-Keeps t b
      by_headers false t b h = request_with_headers-Keeps t b h

  pub fetch-Keeps : (t : Text) (o : FetchOptions) → Keeps P (fetch env c t o)
  unfolding fetch
  fetch-Keeps t o =
      Keeps-bind (lift _) _ (Keeps-lift _)
        λ b. Keeps-bind (request env c _ b) _ (request-Keeps _ b) λ r. Keeps-lift _

  pub ack-Keeps : (t g : Text) (i : Json) → Keeps P (ack env c t g i)
  unfolding ack
  ack-Keeps t g i =
      Keeps-bind (lift _) _ (Keeps-lift _)
        λ b. Keeps-bind (request env c _ b) _ (request-Keeps _ b) λ r. Keeps-pure tt

  pub query-Keeps :
      (t : Text) (k : Option Text) (limit since : Option ℤ) → Keeps P (query env c t k limit since)
  unfolding query
  query-Keeps t k limit since =
      Keeps-bind (lift _) _ (Keeps-lift _)
        λ b. Keeps-bind (request env c _ b) _ (request-Keeps _ b) λ r. Keeps-lift _

  pub delete-Keeps : (t : Text) (i : Json) → Keeps P (delete env c t i)
  unfolding delete
  delete-Keeps t i = Keeps-bind (request env c _ _) _ (request-Keeps _ _) λ r. Keeps-pure tt

  pub agent_register-Keeps : (card : Fields) → Keeps P (agent_register env c card)
  unfolding agent_register
  agent_register-Keeps card =
      Keeps-bind (lift _) _ (Keeps-lift _)
        λ b. Keeps-bind (request env c _ b) _ (request-Keeps _ b) λ r. Keeps-pure tt

  pub agent_unregister-Keeps : (mailbox : Text) → Keeps P (agent_unregister env c mailbox)
  unfolding agent_unregister
  agent_unregister-Keeps mailbox =
      Keeps-bind (lift _) _ (Keeps-lift _)
        λ b. Keeps-bind (request env c _ b) _ (request-Keeps _ b) λ r. Keeps-pure tt

  pub agent_report-Keeps : (report : Fields) → Keeps P (agent_report env c report)
  unfolding agent_report
  agent_report-Keeps report =
      Keeps-bind (lift _) _ (Keeps-lift _)
        λ b. Keeps-bind (request env c _ b) _ (request-Keeps _ b) λ r. Keeps-pure tt

  pub agent_discover-Keeps :
      (t s : Option Text) (limit page : ℤ) → Keeps P (agent_discover env c t s limit page)
  unfolding agent_discover
  agent_discover-Keeps t s limit page =
      Keeps-bind (lift _) _ (Keeps-lift _)
        λ b. Keeps-bind (request env c _ b) _ (request-Keeps _ b) λ r. Keeps-pure _
