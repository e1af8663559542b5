-- ===== src/Tests/Cancel.antt =====
-- A cancellation of a task on the small network.
use mq.Base.{
  Text, Bytes, codes, text_eq, pos, none, some, [], All, ◌≡◌, refl, ap, sym, subst, ◌∙◌,
  if◌then◌else◌, arith, Option,
}
use mq.Py.Exceptions.{ok, Result}
use mq.Py.Json.{int, get, truthy}
use mq.Py.Dict.{Headers}
use mq.Py.Base64.RoundTrip.{IsByte}
use mq.Client.Types.{Payload, decoded, passed}
use mq.Client.Codec.{messages_of, decode_response, check_response}
use mq.Client.Codec.RoundTrip.{message_of}
use mq.Client.Subjects.{subject_msg_send}
use mq.Client.Connection.{request, request_with_headers}
use mq.Client.Messaging.{query, query_body}
use mq.A2a.Types.{Sdk, canceled}
use mq.A2a.Agent.{Agent, new_agent}
use mq.A2a.TaskStore.{get as get_stored, first_task}
use mq.A2a.TaskStore.Keyed.{get-answer, answer}
use mq.A2a.Dispatch.{handle_cancel_task}
use mq.A2a.Dispatch.Cancel.{Elsewhere, cancel_is_stored}
use mq.Tests.World.{Net, start, env, client, reply_of}
use mq.Tests.A2a.{ToyTask, sdk, enqueue}
use mq.Tests.Store.{store, encodes, posted, query-cell, env-ReturnsLatest, task_bytes}

abbrev working : ToyTask
working = record { id = codes "t1"; state = none }

abbrev stopped : ToyTask
stopped = record { id = codes "t1"; state = some canceled }

-- What the mailbox holds at first is the working task, and what is stored later the stopped one.
abbrev parse : Payload → Result ToyTask
parse (decoded b) = if text_eq b (codes "old") then ok working else ok stopped
parse (passed v) = ok stopped

abbrev sdk' : Sdk
sdk' = record sdk { parse_task = parse }

abbrev agent' : Agent sdk' Net
agent' = record (new_agent sdk' Net (codes "nats://localhost:4222") 60000) {
  mq9 = some client;
  mailbox = some (codes "box");
  task_store = some store;
}

query-reply :
    (k : Text) (s : Net)
    → (query env client (codes "box.tasks") (some k) none none s).0 ≡ messages_of (reply_of s.cell)
unfolding query request decode_response check_response get truthy text_eq
query-reply k s = rw (encodes (query_body (some k) none none))

far :
    (to : Text)
    → ((b : Bytes) (h : Headers) (s : Net)
        → (request_with_headers env client (subject_msg_send to) b h s).1.cell ≡ s.cell)
    → Elsewhere env client (codes "box.tasks") to
unfolding request
far to same = record {
  plain = λ k b s.
      query-reply k (request env client (subject_msg_send to) b s).1 ∙ sym (query-reply k s);
  with_headers = λ k b h s.
      query-reply k _ ∙ ap (λ c. messages_of (reply_of c)) (same b h s) ∙ sym (query-reply k s);
}

box_far : Elsewhere env client (codes "box.tasks") (codes "box")
unfolding request_with_headers mq.Client.Connection.exchange mq.Client.Connection.publish_and_wait
    mq.Client.Connection.wait_for decode_response check_response truthy get text_eq
box_far = far (codes "box") (λ b h s. refl)

caller_far : Elsewhere env client (codes "box.tasks") (codes "caller")
unfolding request_with_headers mq.Client.Connection.exchange mq.Client.Connection.publish_and_wait
    mq.Client.Connection.wait_for decode_response check_response truthy get text_eq
caller_far = far (codes "caller") (λ b h s. refl)

old_bytes : All IsByte (codes "old")
old_bytes = (omega arith, (omega arith, (omega arith, tt)))

found : (get_stored sdk' env store (codes "t1") start).0 ≡ ok (some working)
unfolding first_task message_of text_eq
found =
    get-answer sdk' env store refl (codes "t1") start
    ∙ ap (answer sdk' env store refl) (query-cell (codes "task.t1") start old_bytes)

abbrev text_of : Option Text → Text
text_of none = []
text_of (some t) = t

cancel_is_stored_example :
    (get_stored sdk' env store
      (codes "t1")
      (handle_cancel_task sdk' env enqueue agent'
        (decoded (codes "cancel"))
        (some (codes "caller"))
        start).1).0
    ≡ ok (some stopped)
unfolding text_eq
cancel_is_stored_example =
    cancel_is_stored sdk' env enqueue agent' store refl refl refl env-ReturnsLatest
      (decoded (codes "cancel")) (some (codes "caller")) (codes "t1") working (codes "task") start
      (int (pos 7)) refl found refl refl task_bytes refl (posted (codes "task.t1") _)
      (λ to p. subst (Elsewhere env client (codes "box.tasks")) (ap text_of p) box_far)
      (λ to p. subst (Elsewhere env client (codes "box.tasks")) (ap text_of p) caller_far)
