-- ===== src/A2a/Dispatch.antt =====
-- The server side of an agent: `_dispatch` and the handlers of the four methods,
-- python/mq9/a2a/agent.py. Logging is left out.
pub mod Headerless
pub mod Starves
pub mod Terminal
pub mod Stream
pub mod Cancel
pub mod Routing
use mq.Base.{
  Text, Bytes, codes, text_eq, Bool, true, false, Option, none, some, List, [], ◌∷◌, if◌then◌else◌,
}
use mq.Py.Exceptions.{Exn, Result, ok, raise, attribute_error, or_raise}
use mq.Py.Json.{Json}
use mq.Py.Async.{Async, pure, lift, ◌>>=◌, ◌>>◌, try_except, try_finally}
use mq.Py.Dict.{Headers, lookup}
use mq.Client.Types.{Env, Mq9Client, Message, Payload, normal, critical, of_bytes}
use mq.Client.Headers.{default_options}
use mq.Client.Messaging.{send}
use mq.A2a.Types.{
  Sdk, HandlerFn, TaskState, failed, canceled, header_method, header_reply_to, header_task_id,
  method_send, method_get_task, method_list_tasks, method_cancel, truthy_text,
}
use mq.A2a.TaskStore.{TaskStore, save, get, list_tasks}
use mq.A2a.Events.{send_event, EventQueue, new_queue, enqueue_event, flush_last}
use mq.A2a.Agent.{Agent}

-- What `_dispatch` is handed. Its attribute `headers` may be missing, be `None` or be a dict.
pub record Incoming : Type 0 where
  pub msg_id : Json
  pub payload : Payload
  pub headers : Option (Option Headers)

-- The dataclass `Message` of the client has no attribute `headers`.
abbrev pub of_message : Message → Incoming
of_message msg = record { msg_id = msg.msg_id; payload = msg.payload; headers = none }

-- `msg.headers or {}`
unfoldable pub headers_or_empty : Incoming → Result Headers
headers_or_empty msg = elim msg.headers [
  | none ↦ raise (attribute_error (codes "headers"))
  | some none ↦ ok []
  | some (some h) ↦ ok h
]

-- `headers.get(_HEADER_METHOD, _METHOD_SEND)`
abbrev pub method_of : Option Text → Text
method_of none = method_send
method_of (some m) = m

-- `task if task else Task()`
abbrev pub task_or_empty : (sdk : Sdk) → Option sdk.Task → sdk.Task
task_or_empty sdk none = sdk.empty_task
task_or_empty sdk (some t) = t

module _ (sdk : Sdk) {S : Type 0} (env : Env S) (enqueue_base : sdk.Event → Async S (Unit {0}))
    (agent : Agent sdk S) where
  open sdk use {
    Task, Context, Event, with_state, task_json, tasks_json, parse_request, parse_get_task,
    parse_list_tasks, parse_cancel_task, status_update, new_context,
  }

  -- `self._mq9.send(reply_to, payload)`, where `self._mq9` may be `None`
  unfoldable pub reply : Text → Bytes → Async S (Unit {0})
  reply reply_to payload = do
    client ← lift (or_raise agent.mq9 (attribute_error (codes "send")))
    _ ← send env client reply_to (of_bytes payload) default_options
    pure tt

  -- the `except` block around the executor
  abbrev pub report_failure : Option Text → Async S (Unit {0})
  report_failure none = pure tt
  report_failure (some to) =
      send_event sdk env agent.mq9 to (status_update [] failed) true none normal

  -- the `try` statement of `_handle_send_message`
  unfoldable pub execute :
      HandlerFn sdk S → Context → EventQueue S → Option Text → Async S (Unit {0})
  execute handler context queue reply_to =
      try_finally
        (try_except (handler context (enqueue_event sdk env enqueue_base queue))
          (λ exc. report_failure (truthy_text reply_to)))
        (do _ ← flush_last sdk env queue; pure tt)

  abbrev pub run_request :
      HandlerFn sdk S → Incoming → Option Text → Option sdk.Request → Async S (Unit {0})
  run_request handler msg reply_to none = pure tt
  run_request handler msg reply_to (some request) = do
    headers ← lift (headers_or_empty msg)
    context ← lift (new_context request (lookup header_task_id headers))
    execute handler context (new_queue agent.mq9 reply_to (lookup header_task_id headers)) reply_to

  -- `try: request = Parse(…)`, with a return in the `except` block
  abbrev pub parsed_request : Incoming → Async S (Option sdk.Request)
  parsed_request msg =
      try_except (do r ← lift (parse_request msg.payload); pure (some r)) (λ _. pure none)

  abbrev pub with_executor : Option (HandlerFn sdk S) → Incoming → Option Text → Async S (Unit {0})
  with_executor none msg reply_to = pure tt
  with_executor (some handler) msg reply_to = do
    request ← parsed_request msg
    run_request handler msg reply_to request

  unfoldable pub handle_send_message : Incoming → Option Text → Async S (Unit {0})
  handle_send_message msg reply_to = with_executor agent.executor msg reply_to

  abbrev pub get_task_on : Option Text → Option (TaskStore S) → Payload → Async S (Unit {0})
  get_task_on none store payload = pure tt
  get_task_on (some to) none payload = pure tt
  get_task_on (some to) (some store) payload =
      try_except
        (do
          task_id ← lift (parse_get_task payload)
          task ← get sdk env store task_id
          answer ← lift (task_json (task_or_empty sdk task))
          reply to answer)
        (λ _. pure tt)

  unfoldable pub handle_get_task : Payload → Option Text → Async S (Unit {0})
  handle_get_task payload reply_to = get_task_on (truthy_text reply_to) agent.task_store payload

  abbrev pub list_tasks_on : Option Text → Option (TaskStore S) → Payload → Async S (Unit {0})
  list_tasks_on none store payload = pure tt
  list_tasks_on (some to) none payload = pure tt
  list_tasks_on (some to) (some store) payload =
      try_except
        (do
          page_size ← lift (parse_list_tasks payload)
          tasks ← list_tasks sdk env store page_size
          answer ← lift (tasks_json tasks)
          reply to answer)
        (λ _. pure tt)

  unfoldable pub handle_list_tasks : Payload → Option Text → Async S (Unit {0})
  handle_list_tasks payload reply_to = list_tasks_on (truthy_text reply_to) agent.task_store payload

  -- `if task: … save(task)`; the task with its new state is what is replied
  abbrev pub save_canceled : TaskStore S → Option Task → Async S (Unit {0})
  save_canceled store none = pure tt
  save_canceled store (some t) = save sdk env store (with_state canceled t)

  -- `if self._mailbox`: the notice to the agent's own inbox
  abbrev pub notify_self : Option Text → Text → Async S (Unit {0})
  notify_self none task_id = pure tt
  notify_self (some inbox) task_id =
      send_event sdk env agent.mq9 inbox (status_update task_id canceled) false none critical

  -- `if reply_to and task`
  abbrev pub reply_canceled : Option Text → Option Task → Async S (Unit {0})
  reply_canceled none task = pure tt
  reply_canceled (some to) none = pure tt
  reply_canceled (some to) (some t) = do
    answer ← lift (task_json (with_state canceled t))
    reply to answer

  abbrev pub cancel_task_on : Option Text → Option (TaskStore S) → Payload → Async S (Unit {0})
  cancel_task_on to none payload = pure tt
  cancel_task_on to (some store) payload =
      try_except
        (do
          task_id ← lift (parse_cancel_task payload)
          task ← get sdk env store task_id
          save_canceled store task
          notify_self (truthy_text agent.mailbox) task_id
          reply_canceled to task)
        (λ _. pure tt)

  unfoldable pub handle_cancel_task : Payload → Option Text → Async S (Unit {0})
  handle_cancel_task payload reply_to =
      cancel_task_on (truthy_text reply_to) agent.task_store payload

  -- The branch on the method, inside the `try`.
  unfoldable pub route : Text → Incoming → Option Text → Async S (Unit {0})
  route method msg reply_to =
      if text_eq method method_get_task
      then handle_get_task msg.payload reply_to
      else if text_eq method method_list_tasks
      then handle_list_tasks msg.payload reply_to
      else if text_eq method method_cancel
      then handle_cancel_task msg.payload reply_to
      else handle_send_message msg reply_to

  unfoldable pub dispatch : Incoming → Async S (Unit {0})
  dispatch msg = do
    headers ← lift (headers_or_empty msg)
    try_except
        (route (method_of (lookup header_method headers)) msg (lookup header_reply_to headers))
        (λ _. pure tt)
