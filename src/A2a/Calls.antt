-- ===== src/A2a/Calls.antt =====
-- The client side of an agent: discovery, and the calls of another agent's methods,
-- python/mq9/a2a/agent.py.
use mq.Base.{Text, Bytes, codes, ℤ, pos, Bool, Option, none, some, List, [], ◌∷◌, if◌then◌else◌}
use mq.Py.Exceptions.{Result, ok, raise, type_error}
use mq.Py.Json.{Json, int, str, get}
use mq.Py.Async.{Async, pure, lift, ◌>>=◌}
use mq.Client.Types.{Env, Mq9Client, Message, Payload, of_bytes}
use mq.Client.Subjects.{subject_msg_send}
use mq.Client.Connection.{request_with_headers}
use mq.Client.Headers.{default_options}
use mq.Client.Messaging.{send, fetch, mailbox_create, FetchOptions, default_fetch}
use mq.Client.Agents.{agent_discover}
use mq.A2a.Types.{
  Sdk, header_method, header_reply_to, method_get_task, method_list_tasks, method_cancel,
  truthy_text,
}
use mq.A2a.Agent.{Agent, Address, mailbox_of, mq9_or_raise}

-- `resp.get("msg_id", 0)`
abbrev pub msg_id_or_zero : Option Json → Json
msg_id_or_zero none = int (pos 0)
msg_id_or_zero (some v) = v

-- The address in a reply of MAILBOX.CREATE, which protocol.md documents as a text. Python would
-- pass another value on; the model refuses it.
abbrev pub address_text : Json → Result Text
address_text (str t) = ok t
address_text _ = raise (type_error (codes "mail_address is no text"))

-- The one message that a callback mailbox is polled for.
abbrev pub callback_fetch : FetchOptions
callback_fetch = record default_fetch {
  deliver = codes "earliest";
  num_msgs = pos 1;
  max_wait_ms = pos 5000;
}

-- The value of the first message, if there is one and it parses.
abbrev pub first_parsed : {A : Type 0} → (Payload → Result A) → A → List Message → A
first_parsed parse default [] = default
first_parsed parse default (msg ∷ msgs) = elim (parse msg.payload) [ ok a ↦ a | raise _ ↦ default ]

abbrev pub map_some : {A : Type 0} → Result A → Result (Option A)
map_some (ok a) = ok (some a)
map_some (raise e) = raise e

module _ (sdk : Sdk) {S : Type 0} (env : Env S) (agent : Agent sdk S) where
  open sdk use {
    Task, Request, request_json, get_task_json, list_tasks_json, cancel_task_json, parse_task,
    parse_tasks,
  }

  -- `discover`: the registry is listed, or searched by meaning or by keyword.
  unfoldable pub discover : Option Text → Bool → ℤ → Async S Json
  discover query semantic limit = do
    mq9 ← lift (mq9_or_raise sdk S agent)
    elim query [
      | none ↦ agent_discover env mq9 none none limit (pos 1)
      | some q ↦
          if semantic
          then agent_discover env mq9 none (some q) limit (pos 1)
          else agent_discover env mq9 (some q) none limit (pos 1)
    ]

  abbrev pub send_to : Mq9Client S → Text → Bytes → Option Text → Async S Json
  send_to mq9 mailbox payload none = send env mq9 mailbox (of_bytes payload) default_options
  send_to mq9 mailbox payload (some to) = do
    resp ←
        request_with_headers env mq9 (subject_msg_send mailbox) payload ((header_reply_to, to) ∷ [])
    pure (msg_id_or_zero (get (codes "msg_id") resp))

  unfoldable pub send_message : Address → Request → Option Text → Async S Json
  send_message address request reply_to = do
    mq9 ← lift (mq9_or_raise sdk S agent)
    mailbox ← lift (mailbox_of address)
    payload ← lift (request_json request)
    send_to mq9 mailbox payload (truthy_text reply_to)

  -- What `get_task`, `list_tasks` and `cancel_task` have in common: the request with a one-shot
  -- mailbox to reply to, once it is printed, and the messages that arrive there.
  unfoldable pub call : Address → Text → Result Bytes → Async S (List Message)
  call address method printed = do
    mq9 ← lift (mq9_or_raise sdk S agent)
    mailbox ← lift (mailbox_of address)
    created ← mailbox_create env mq9 none (pos 30)
    callback ← lift (address_text created)
    payload ← lift printed
    _ ←
        request_with_headers env mq9 (subject_msg_send mailbox) payload
          ((header_method, method) ∷ (header_reply_to, callback) ∷ [])
    fetch env mq9 callback callback_fetch

  unfoldable pub get_task : Address → Text → Async S (Option Task)
  get_task address task_id = do
    msgs ← call address method_get_task (get_task_json task_id)
    pure (first_parsed (λ p. map_some (parse_task p)) none msgs)

  unfoldable pub list_tasks : Address → ℤ → Async S (List Task)
  list_tasks address page_size = do
    msgs ← call address method_list_tasks (list_tasks_json page_size)
    pure (first_parsed parse_tasks [] msgs)

  unfoldable pub cancel_task : Address → Text → Async S (Option Task)
  cancel_task address task_id = do
    msgs ← call address method_cancel (cancel_task_json task_id)
    pure (first_parsed (λ p. map_some (parse_task p)) none msgs)
