-- ===== src/A2a/Events.antt =====
-- `_send_event` and `_ForwardingEventQueue` of python/mq9/a2a/agent.py. Logging is left out.
pub mod Journal
use mathlib.Core.Option
use mq.Base.{
  Text, Bytes, codes, Bool, true, false, Option, none, some, List, [], ◌∷◌, if◌then◌else◌,
}
use mq.Py.Exceptions.{Exn, Result, ok, raise, attribute_error, or_raise}
use mq.Py.Async.{Async, pure, lift, ◌>>=◌, ◌>>◌, try_except}
use mq.Py.Dict.{Headers, insert}
use mq.Client.Types.{Env, Mq9Client, Priority, normal}
use mq.Client.Subjects.{subject_msg_send}
use mq.Client.Connection.{request_with_headers}
use mq.Client.Headers.{set_header, priority_value}
use mq.A2a.Types.{Sdk, TaskState, completed, header_last, header_type, header_task_id, truthy_text}

-- `if last: headers[_HEADER_LAST] = "true"`
abbrev pub last_value : Bool → Option Text
last_value true = some (codes "true")
last_value false = none

unfoldable pub event_headers : Text → Bool → Option Text → Priority → Headers
event_headers type_name last task_id priority =
    set_header (codes "mq9-priority") (priority_value priority) (
      set_header header_task_id (truthy_text task_id)
        (set_header header_last (last_value last) ((header_type, type_name) ∷ [])))

pub record EventQueue (S : Type 0) : Type 0 where
  pub mq9 : Option (Mq9Client S)
  pub reply_to : Option Text
  pub task_id : Option Text
  pub closed : Bool

module _ {S : Type 0} where
  abbrev pub new_queue : Option (Mq9Client S) → Option Text → Option Text → EventQueue S
  new_queue mq9 reply_to task_id = record {
    mq9 = mq9;
    reply_to = reply_to;
    task_id = task_id;
    closed = false;
  }

  -- `if self._reply_to and self._mq9`
  abbrev pub target : EventQueue S → Option Text
  target q = elim q.mq9 [ none ↦ none | some _ ↦ truthy_text q.reply_to ]

module _ (sdk : Sdk) {S : Type 0} (env : Env S) where
  open sdk use {Event, status_update, event_json, event_type}

  -- The client may be `None`: its use is then an AttributeError inside the `try`.
  unfoldable pub send_event :
      Option (Mq9Client S) → Text → Event → Bool → Option Text → Priority → Async S (Unit {0})
  send_event mq9 reply_to event last task_id priority = do
    payload ← lift (event_json event)
    try_except
        (do
          client ← lift (or_raise mq9 (attribute_error (codes "_request_with_headers")))
          _ ←
              request_with_headers env client (subject_msg_send reply_to) payload
                (event_headers (event_type event) last task_id priority)
          pure tt)
        (λ _. pure tt)

  abbrev forward : Option Text → EventQueue S → Event → Async S (Unit {0})
  forward none q event = pure tt
  forward (some reply_to) q event = send_event q.mq9 reply_to event false q.task_id normal

  -- `enqueue_base` is the method of `InMemoryEventQueue`.
  unfoldable pub enqueue_event :
      (Event → Async S (Unit {0})) → EventQueue S → Event → Async S (Unit {0})
  enqueue_event enqueue_base q event = do enqueue_base event; forward (target q) q event

  abbrev finish : Option Text → EventQueue S → Async S (EventQueue S)
  finish none q = pure q
  finish (some reply_to) q = if q.closed then pure q else do
    send_event q.mq9 reply_to (status_update [] completed) true q.task_id normal
    pure (record q { closed = true })

  unfoldable pub flush_last : EventQueue S → Async S (EventQueue S)
  flush_last q = finish (target q) q
