-- ===== src/A2a/Types.antt =====
-- What python/mq9/a2a uses of a2a-sdk and of protobuf, and the headers of its messages.
use mq.Base.{Text, Bytes, codes, ℤ, true, false, Option, none, some, List, is_empty}
use mq.Py.Exceptions.{Result}
use mq.Py.Json.{Fields}
use mq.Py.Async.{Async}
use mq.Client.Types.{Payload}

-- The states that the facade itself sets.
pub data TaskState : Type 0 where
  completed failed canceled : TaskState

-- The message types, `json_format.MessageToJson(m).encode()` as `…_json`, which raises for a
-- message that it cannot print, and `json_format.Parse(payload, T())` as `parse_…`. A request of
-- one field stands for its field.
pub record Sdk : Type 1 where
  pub Task : Type 0
  pub Request : Type 0
  pub Context : Type 0
  pub Event : Type 0
  pub AgentCard : Type 0
  -- `task.id`
  pub id_of : Task → Text
  -- `Task()`
  pub empty_task : Task
  -- `task.status.CopyFrom(TaskStatus(state=state))`
  pub with_state : TaskState → Task → Task
  pub task_json : Task → Result Bytes
  pub parse_task : Payload → Result Task
  pub tasks_json : List Task → Result Bytes
  pub parse_tasks : Payload → Result (List Task)
  pub request_json : Request → Result Bytes
  pub parse_request : Payload → Result Request
  pub get_task_json : Text → Result Bytes
  pub parse_get_task : Payload → Result Text
  pub list_tasks_json : ℤ → Result Bytes
  pub parse_list_tasks : Payload → Result ℤ
  pub cancel_task_json : Text → Result Bytes
  pub parse_cancel_task : Payload → Result Text
  -- `TaskStatusUpdateEvent(task_id=…, status=TaskStatus(state=…))`; no task id is an empty one
  pub status_update : Text → TaskState → Event
  pub event_json : Event → Result Bytes
  -- `type(event).__name__`
  pub event_type : Event → Text
  -- `RequestContext(request=…, task_id=…, …)`
  pub new_context : Request → Option Text → Result Context
  -- `card.description` and `json_format.MessageToDict(card)`
  pub description : AgentCard → Text
  pub card_dict : AgentCard → Fields

-- A user's handler is given the context and the queue's `enqueue_event`.
abbrev pub HandlerFn : Sdk → Type 0 → Type 0
HandlerFn sdk S = sdk.Context → (sdk.Event → Async S (Unit {0})) → Async S (Unit {0})

abbrev pub header_method : Text
header_method = codes "mq9-a2a-method"

abbrev pub header_reply_to : Text
header_reply_to = codes "mq9-reply-to"

abbrev pub header_last : Text
header_last = codes "mq9-a2a-last"

abbrev pub header_type : Text
header_type = codes "mq9-a2a-type"

abbrev pub header_task_id : Text
header_task_id = codes "mq9-a2a-task-id"

abbrev pub method_send : Text
method_send = codes "SendMessage"

abbrev pub method_get_task : Text
method_get_task = codes "GetTask"

abbrev pub method_list_tasks : Text
method_list_tasks = codes "ListTasks"

abbrev pub method_cancel : Text
method_cancel = codes "CancelTask"

-- Python's truth value of an optional text: neither `None` nor empty.
abbrev pub truthy_text : Option Text → Option Text
truthy_text none = none
truthy_text (some t) = elim (is_empty t) [ true ↦ none | false ↦ some t ]
