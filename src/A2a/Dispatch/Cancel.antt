-- ===== src/A2a/Dispatch/Cancel.antt =====
-- That a task whose cancellation is asked for is stored as cancelled.
use mq.Base.{
  Text, Bytes, Option, none, some, List, ◌++◌, All, Bool, true, false, ◌≡◌, refl, ap, ◌∙◌, sym,
  arith,
}
use mq.Py.Exceptions.{Exn, Result, ok, raise}
use mq.Py.Json.{Json}
use mq.Py.Async.{lift, Async, pure, ◌>>=◌, ◌>>◌, try_except}
use mq.Py.Dict.{Headers}
use mq.Py.Base64.RoundTrip.{IsByte}
use mq.Client.Types.{Env, Mq9Client, Message, Payload, decoded, critical, of_bytes, Priority}
use mq.Client.Codec.{encode}
use mq.Client.Subjects.{subject_msg_send}
use mq.Client.Headers.{default_options, headers_of, set_header}
use mq.Client.Connection.{request, request_with_headers}
use mq.Client.Messaging.{send}
use mq.A2a.Types.{Sdk, canceled, truthy_text}
use mq.A2a.Agent.{Agent}
use mq.A2a.Events.{send_event, event_headers}
use mq.A2a.TaskStore.{TaskStore, key_prefix, save, get}
use mq.A2a.TaskStore.Keyed.{ReturnsLatest, post, look, key_of, answer, get-answer, get-save}
use mq.A2a.Dispatch.{handle_cancel_task, reply, notify_self, reply_canceled, save_canceled}

-- A message to the mailbox `to` changes nothing of what a query of the mailbox `box` returns.
pub record Elsewhere {S : Type 0} (env : Env S) (c : Mq9Client S) (box to : Text) : Type 0 where
  pub plain :
      (k : Text) (b : Bytes) (s : S)
      → look env c box k (request env c (subject_msg_send to) b s).1 ≡ look env c box k s
  pub with_headers :
      (k : Text) (b : Bytes) (h : Headers) (s : S)
      → look env c box k (request_with_headers env c (subject_msg_send to) b h s).1
        ≡ look env c box k s

module _ {S : Type 0} (env : Env S) (c : Mq9Client S) where
  state-send :
      (to : Text) (b : Bytes) (s : S)
      → (send env c to (of_bytes b) default_options s).1
        ≡ (request env c (subject_msg_send to) b s).1
  unfolding send encode headers_of set_header
  state-send to b s = ground (arith)

  state-send_event :
      (sdk : Sdk) (to : Text) (event : sdk.Event) (last : Bool) (task_id : Option Text)
      (p : Priority) (s : S) (b : Bytes)
      → sdk.event_json event ≡ ok b
      → (send_event sdk env (some c) to event last task_id p s).1
        ≡ (request_with_headers env c
            (subject_msg_send to)
            b
            (event_headers (sdk.event_type event) last task_id p)
            s).1
  unfolding send_event
  state-send_event sdk to event last task_id p s b q = rw q (ground arith)

  state-send_event_raise :
      (sdk : Sdk) (to : Text) (event : sdk.Event) (last : Bool) (task_id : Option Text)
      (p : Priority) (s : S) (x : Exn)
      → sdk.event_json event ≡ raise x
      → (send_event sdk env (some c) to event last task_id p s).1 ≡ s
  unfolding send_event
  state-send_event_raise sdk to event last task_id p s x q = rw q refl

module _ (sdk : Sdk) {S : Type 0} (env : Env S) (enqueue_base : sdk.Event → Async S (Unit {0}))
    (agent : Agent sdk S) (store : TaskStore S) (k : Text) (m : agent.mq9 ≡ some store.mq9) where
  open sdk use {Task, with_state, task_json, id_of, parse_cancel_task, parse_task}

  abbrev view : S → Result (List Message)
  view = look env store.mq9 store.mailbox k

  view-send_event :
      (to : Text)
      → Elsewhere env store.mq9 store.mailbox to
      → (event : sdk.Event) (last : Bool) (task_id : Option Text) (p : Priority) (s : S)
      → view (send_event sdk env (some store.mq9) to event last task_id p s).1 ≡ view s
  view-send_event to far event last task_id p s = by_bytes (sdk.event_json event) refl
    where
      by_bytes :
          (r : Result Bytes)
          → sdk.event_json event ≡ r
          → view (send_event sdk env (some store.mq9) to event last task_id p s).1 ≡ view s
      by_bytes (ok b) q =
          ap view (state-send_event env store.mq9 sdk to event last task_id p s b q)
          ∙ far.with_headers k _ _ s
      by_bytes (raise x) q =
          ap view (state-send_event_raise env store.mq9 sdk to event last task_id p s x q)

  view-notify_self :
      (inbox : Option Text)
      → ((to : Text) → inbox ≡ some to → Elsewhere env store.mq9 store.mailbox to)
      → (i : Text) (s : S) → view (notify_self sdk env enqueue_base agent inbox i s).1 ≡ view s
  view-notify_self none far i s = refl
  view-notify_self (some to) far i s =
      rw m (view-send_event to (far to refl) _ false none critical s)

  state-reply :
      (to : Text) (b : Bytes) (s : S)
      → (reply sdk env enqueue_base agent to b s).1
        ≡ (send env store.mq9 to (of_bytes b) default_options s).1
  unfolding reply
  state-reply to b s = simp m (ground (arith))

  view-reply :
      (to : Text)
      → Elsewhere env store.mq9 store.mailbox to
      → (b : Bytes) (s : S) → view (reply sdk env enqueue_base agent to b s).1 ≡ view s
  view-reply to far b s =
      ap view (state-reply to b s ∙ state-send env store.mq9 to b s) ∙ far.plain k b s

  view-reply_canceled :
      (reply_to : Option Text)
      → ((to : Text) → reply_to ≡ some to → Elsewhere env store.mq9 store.mailbox to)
      → (t : Task) (s : S)
      → view (reply_canceled sdk env enqueue_base agent reply_to (some t) s).1 ≡ view s
  view-reply_canceled none far t s = refl
  view-reply_canceled (some to) far t s = by_bytes (task_json (with_state canceled t)) refl
    where
      by_bytes :
          (r : Result Bytes)
          → task_json (with_state canceled t) ≡ r
          → view (reply_canceled sdk env enqueue_base agent (some to) (some t) s).1 ≡ view s
      by_bytes (ok b) q = rw q (view-reply to (far to refl) b s)
      by_bytes (raise x) q = rw q refl

module _ {S A : Type 0} (view : S → A) where
  view-try :
      (m : Async S (Unit {0})) (s : S) → view (try_except m (λ _. pure tt) s).1 ≡ view (m s).1
  view-try m s = ap view (ground (arith))

  view-then :
      (m k : Async S (Unit {0})) (s : S)
      → view (m s).1 ≡ view s
      → ((w : S) → view (k w).1 ≡ view w)
      → view ((m >> k) s).1 ≡ view s
  view-then m k s p q = by_outcome (m s).0 refl
    where
      by_outcome : (r : Result (Unit {0})) → (m s).0 ≡ r → view ((m >> k) s).1 ≡ view s
      by_outcome (ok _) h = rw h (q (m s).1 ∙ p)
      by_outcome (raise x) h = rw h p

module _ (sdk : Sdk) {S : Type 0} (env : Env S) (enqueue_base : sdk.Event → Async S (Unit {0}))
    (agent : Agent sdk S) (store : TaskStore S) (m : agent.mq9 ≡ some store.mq9)
    (own : agent.task_store ≡ some store) (ready : store.ready ≡ true)
    (keeps : ReturnsLatest env store.mq9 store.mailbox) where
  open sdk use {Task, with_state, task_json, id_of, parse_cancel_task, parse_task}

  -- The addresses that the handler writes to are not the mailbox of the tasks.
  abbrev pub Apart : Option Text → Type 0
  Apart address =
      (to : Text) → truthy_text address ≡ some to → Elsewhere env store.mq9 store.mailbox to

  save-ok :
      (t : Task) (b : Bytes) (s : S) (i : Json)
      → task_json t ≡ ok b
      → (post env store.mq9 store.mailbox (key_of sdk env store ready (id_of t)) b s).0 ≡ ok i
      → (save sdk env store t s).0 ≡ ok tt
  unfolding save
  save-ok t b s i prints accepted = rw (ready, prints, accepted) refl

  -- the body of the handler's `try`
  abbrev body : Payload → Option Text → Async S (Unit {0})
  body payload reply_to = do
    task_id ← lift (parse_cancel_task payload)
    task ← get sdk env store task_id
    save_canceled sdk env enqueue_base agent store task
    notify_self sdk env enqueue_base agent (truthy_text agent.mailbox) task_id
    reply_canceled sdk env enqueue_base agent (truthy_text reply_to) task

  abbrev rest : Option Text → Text → Task → Async S (Unit {0})
  rest reply_to i t =
      notify_self sdk env enqueue_base agent (truthy_text agent.mailbox) i
      >> reply_canceled sdk env enqueue_base agent (truthy_text reply_to) (some t)

  handle_cancel_task-body :
      (payload : Payload) (reply_to : Option Text) (s : S)
      → handle_cancel_task sdk env enqueue_base agent payload reply_to s
        ≡ try_except (body payload reply_to) (λ _. pure tt) s
  unfolding handle_cancel_task
  handle_cancel_task-body payload reply_to s = simp own

  body-rest :
      (payload : Payload) (reply_to : Option Text) (i : Text) (t : Task) (s : S)
      → parse_cancel_task payload ≡ ok i
      → (get sdk env store i s).0 ≡ ok (some t)
      → (save sdk env store (with_state canceled t) (get sdk env store i s).1).0 ≡ ok tt
      → body payload reply_to s
        ≡ rest reply_to i t (save sdk env store (with_state canceled t) (get sdk env store i s).1).1
  body-rest payload reply_to i t s parsed found saved = rw (parsed, found, saved) refl

  view-rest :
      (k : Text) (reply_to : Option Text) (i : Text) (t : Task) (s : S)
      → Apart agent.mailbox
      → Apart reply_to
      → look env store.mq9 store.mailbox k (rest reply_to i t s).1
        ≡ look env store.mq9 store.mailbox k s
  view-rest k reply_to i t s inbox_apart reply_apart =
      view-then (look env store.mq9 store.mailbox k)
        (notify_self sdk env enqueue_base agent (truthy_text agent.mailbox) i)
        (reply_canceled sdk env enqueue_base agent (truthy_text reply_to) (some t)) s
        (view-notify_self sdk env enqueue_base agent store k m _ inbox_apart i s)
        (view-reply_canceled sdk env enqueue_base agent store k m _ reply_apart t)

  -- For an agent with a task store that is ready, whose mailbox returns the latest message of each
  -- key, and apart from the agent's inbox and the address to reply to: once the handler of
  -- CancelTask has run for a task that the store returns, and the broker has accepted the new state
  -- in the form that it is printed in, the store returns that task as CANCELED, whatever becomes of
  -- the notice and the reply.
  pub cancel_is_stored :
      (payload : Payload) (reply_to : Option Text) (i : Text) (t : Task) (b : Bytes) (s : S)
      (n : Json)
      → parse_cancel_task payload ≡ ok i
      → (get sdk env store i s).0 ≡ ok (some t)
      → id_of (with_state canceled t) ≡ i
      → task_json (with_state canceled t) ≡ ok b
      → All IsByte b
      → parse_task (decoded b) ≡ ok (with_state canceled t)
      → (post env store.mq9 store.mailbox
          (key_prefix ++ id_of (with_state canceled t))
          b
          (get sdk env store i s).1).0
        ≡ ok n
      → Apart agent.mailbox
      → Apart reply_to
      → (get sdk env store i (handle_cancel_task sdk env enqueue_base agent payload reply_to s).1).0
        ≡ ok (some (with_state canceled t))
  cancel_is_stored payload reply_to i t b s n parsed found same prints bytes parses accepted
        inbox_apart reply_apart =
      let t' = with_state canceled t in
      let s1 = (get sdk env store i s).1 in
      let view = look env store.mq9 store.mailbox (key_prefix ++ i) in
      get-answer sdk env store ready i _
      ∙ ap (answer sdk env store ready) (
          ap (λ r. view r.1) (handle_cancel_task-body payload reply_to s)
          ∙ view-try view (body payload reply_to) s
          ∙ ap (λ r. view r.1)
              (body-rest payload reply_to i t s parsed found (save-ok t' b s1 n prints accepted))
          ∙ view-rest (key_prefix ++ i) reply_to i t _ inbox_apart reply_apart)
      ∙ sym (get-answer sdk env store ready i _)
      ∙ ap (λ j. (get sdk env store j (save sdk env store t' s1).1).0) (sym same)
      ∙ get-save sdk env store ready keeps t' b s1 n prints bytes parses accepted
