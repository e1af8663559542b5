-- ===== src/A2a/Dispatch/Stream.antt =====
-- What the caller is sent when the user's handler enqueues events and returns.
use mq.Base.{Text, Option, some, List, [], ◌∷◌, true, false, ◌≡◌}
use mq.Py.Exceptions.{Exn, ok, raise, is_exception}
use mq.Py.Async.{Async, pure, ◌>>=◌, ◌>>◌}
use mq.Py.Dict.{Headers}
use mq.Client.Types.{Nats, Env, Mq9Client, normal}
use mq.Client.Subjects.{subject_msg_send}
use mq.Client.Connection.{request_with_headers}
use mq.Base.{Bytes}
use mq.A2a.Types.{Sdk, truthy_text}
use mq.A2a.Agent.{Agent}
use mq.A2a.Events.{event_headers, EventQueue, new_queue, enqueue_event}
use mq.A2a.Events.Journal.{Published, Publishes, printed}
use mq.A2a.Dispatch.Terminal.{PrintsMarkers}

-- A handler that enqueues the events in turn and returns.
unfoldable pub emit_all : {S E : Type 0} → (E → Async S (Unit {0})) → List E → Async S (Unit {0})
emit_all emit [] = pure tt
emit_all emit (event ∷ events) = do emit event; emit_all emit events

module _ (sdk : Sdk) (to : Text) (task_id : Option Text) where
  -- An event on its way to the caller: with the task id, and not marked as the last.
  abbrev pub progress : sdk.Event → Published
  progress event = (
    subject_msg_send to,
    printed sdk event,
    event_headers (sdk.event_type event) false task_id normal,
  )

  -- The events, the latest first, in front of what was published before.
  unfoldable pub forwarded : List sdk.Event → List Published → List Published
  forwarded [] j = j
  forwarded (event ∷ events) j = forwarded events (progress event ∷ j)

-- The in-memory queue takes every event and publishes nothing, and no request is cancelled.
pub record TakesEvents {S E : Type 0} (env : Env S) (c : Mq9Client S)
    (enqueue_base : E → Async S (Unit {0})) (journal : S → List Published) : Type 0 where
  pub takes : (event : E) (s : S) → (enqueue_base event s).0 ≡ ok tt
  pub quiet : (event : E) (s : S) → journal (enqueue_base event s).1 ≡ journal s
  pub uncancelled :
      (t : Text) (b : Bytes) (h : Headers) (s : S) (x : Exn)
      → (request_with_headers env c t b h s).0 ≡ raise x
      → is_exception x ≡ true

module _ (sdk : Sdk) {S : Type 0} (env : Env S) (enqueue_base : sdk.Event → Async S (Unit {0}))
    (agent : Agent sdk S) (c : Mq9Client S) (m : agent.mq9 ≡ some c) (nc : Nats S)
    (e : c.nc ≡ some nc) (journal : S → List Published) (pub_laws : Publishes nc journal)
    (base_laws : TakesEvents env c enqueue_base journal) (context : sdk.Context) (to : Text)
    (full : truthy_text (some to) ≡ some to) (task_id : Option Text)
    (marks : PrintsMarkers sdk) where
  abbrev queue : EventQueue S
  queue = new_queue (some c) (some to) task_id

  abbrev emit : sdk.Event → Async S (Unit {0})
  emit = enqueue_event sdk env enqueue_base queue
