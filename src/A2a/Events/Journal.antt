-- ===== src/A2a/Events/Journal.antt =====
-- What `_send_event` puts on the wire.
use mq.Base.{ℕ, Text, Bytes, Bool, Option, some, List, [], ◌∷◌, ◌≡◌, ap, ◌∙◌, arith}
use mq.Py.Exceptions.{ok, raise}
use mq.Py.Dict.{Headers}
use mq.Client.Types.{Nats, Env, Mq9Client, Priority}
use mq.Client.Subjects.{subject_msg_send}
use mq.Client.Connection.{publish_and_wait, exchange, request_with_headers}
use mq.A2a.Types.{Sdk}
use mq.A2a.Events.{event_headers, send_event}

-- A published message: its subject, payload and headers.
abbrev pub Published : Type 0
Published = Text × Bytes × Headers

-- A connection that is up: it gives inboxes and subscriptions. `journal` are the messages published
-- with headers, the latest first; nothing but `publish` changes it.
pub record Publishes {S : Type 0} (nc : Nats S) (journal : S → List Published) : Type 0 where
  pub inbox : (s : S) → (i : Text) × ((nc.new_inbox s).0 ≡ ok i)
  pub inbox_quiet : (s : S) → journal (nc.new_inbox s).1 ≡ journal s
  pub subscribed : (t : Text) (s : S) → (k : ℕ) × ((nc.subscribe t s).0 ≡ ok k)
  pub subscribe_quiet : (t : Text) (s : S) → journal (nc.subscribe t s).1 ≡ journal s
  pub published :
      (t : Text) (b : Bytes) (r : Text) (h : Headers) (s : S)
      → journal (nc.publish t b r h s).1 ≡ (t, b, h) ∷ journal s
  pub wait_quiet : (k ms : ℕ) (s : S) → journal (nc.deliveries k ms s).1 ≡ journal s
  pub unsubscribe_quiet : (k : ℕ) (s : S) → journal (nc.unsubscribe k s).1 ≡ journal s

-- The bytes of an event that `json_format` prints.
abbrev pub Serializes : (sdk : Sdk) → sdk.Event → Type 0
Serializes sdk event = (b : Bytes) × (sdk.event_json event ≡ ok b)

abbrev pub printed : (sdk : Sdk) → sdk.Event → Bytes
printed sdk event = elim (sdk.event_json event) [ ok b ↦ b | raise _ ↦ [] ]

module _ {S : Type 0} (env : Env S) (c : Mq9Client S) (nc : Nats S) (e : c.nc ≡ some nc)
    (journal : S → List Published) (pub_laws : Publishes nc journal) where
  journal-publish_and_wait :
      (ms k : ℕ) (t : Text) (b : Bytes) (inbox : Text) (h : Headers) (s : S)
      → journal (publish_and_wait nc ms k t b inbox h s).1 ≡ (t, b, h) ∷ journal s
  unfolding publish_and_wait
  journal-publish_and_wait ms k t b inbox h s = ground (
    arith,
    pub_laws.published t b inbox h s,
    pub_laws.wait_quiet k ms (nc.publish t b inbox h s).1,
  )

  journal-exchange :
      (ms k : ℕ) (t : Text) (b : Bytes) (inbox : Text) (h : Headers) (s : S)
      → journal (exchange env nc ms t b h inbox k s).1 ≡ (t, b, h) ∷ journal s
  unfolding exchange
  journal-exchange ms k t b inbox h s = ground (
    arith,
    journal-publish_and_wait ms k t b inbox h s,
    pub_laws.unsubscribe_quiet k (publish_and_wait nc ms k t b inbox h s).1,
  )

  pub journal-request_with_headers :
      (t : Text) (b : Bytes) (h : Headers) (s : S)
      → journal (request_with_headers env c t b h s).1 ≡ (t, b, h) ∷ journal s
  unfolding request_with_headers
  journal-request_with_headers t b h s =
      let (i, p) = pub_laws.inbox s in
      let (k, q) = pub_laws.subscribed i (nc.new_inbox s).1 in
      rw (e, p, q)
        (journal-exchange c.request_timeout k t b i h _
          ∙ ap (λ l. (t, b, h) ∷ l) (pub_laws.subscribe_quiet i _ ∙ pub_laws.inbox_quiet s))

  -- An event that is printed is published once, with its headers, whether or not the broker
  -- answers.
  pub journal-send_event :
      (sdk : Sdk) (to : Text) (event : sdk.Event) (last : Bool) (task_id : Option Text)
      (priority : Priority) (s : S)
      → Serializes sdk event
      → journal (send_event sdk env (some c) to event last task_id priority s).1
        ≡ (
          subject_msg_send to,
          printed sdk event,
          event_headers (sdk.event_type event) last task_id priority,
        )
          ∷ journal s
  unfolding send_event
  journal-send_event sdk to event last task_id priority s (b, p) = rw p (
      ground (
        arith,
        journal-request_with_headers (subject_msg_send to) b
            (event_headers (sdk.event_type event) last task_id priority) s,
      ))
