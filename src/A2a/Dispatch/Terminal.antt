-- ===== src/A2a/Dispatch/Terminal.antt =====
-- The terminal markers of the reply stream of a SendMessage.
use mq.Base.{Text, true, Option, none, some, List, [], ◌∷◌, ◌≡◌, if◌then◌else◌}
use mq.Py.Exceptions.{Result, ok, raise, is_exception}
use mq.Py.Async.{Async}
use mq.Client.Types.{Nats, Env, Mq9Client, normal}
use mq.Client.Subjects.{subject_msg_send}
use mq.A2a.Types.{Sdk, HandlerFn, completed, failed, truthy_text}
use mq.A2a.Events.{EventQueue, new_queue, event_headers, enqueue_event}
use mq.A2a.Events.Journal.{Published, Publishes, Serializes, printed}
use mq.A2a.Agent.{Agent}

module _ (sdk : Sdk) (to : Text) where
  -- The marker of a finished stream, and that of a failed one, which carries no task id.
  abbrev pub completed_marker : Option Text → Published
  completed_marker task_id =
      let event = sdk.status_update [] completed in
      (
        subject_msg_send to,
        printed sdk event,
        event_headers (sdk.event_type event) true task_id normal,
      )

  abbrev pub failed_marker : Published
  failed_marker =
      let event = sdk.status_update [] failed in
      (
        subject_msg_send to,
        printed sdk event,
        event_headers (sdk.event_type event) true none normal,
      )

-- `json_format` prints the status updates that the agent itself makes.
pub record PrintsMarkers (sdk : Sdk) : Type 0 where
  pub completed_prints : Serializes sdk (sdk.status_update [] completed)
  pub failed_prints : Serializes sdk (sdk.status_update [] failed)

module _ (sdk : Sdk) {S : Type 0} (env : Env S) (enqueue_base : sdk.Event → Async S (Unit {0}))
    (agent : Agent sdk S) (c : Mq9Client S) (m : agent.mq9 ≡ some c) (nc : Nats S)
    (e : c.nc ≡ some nc) (journal : S → List Published) (pub_laws : Publishes nc journal)
    (handler : HandlerFn sdk S) (context : sdk.Context) (to : Text)
    (full : truthy_text (some to) ≡ some to) (task_id : Option Text)
    (marks : PrintsMarkers sdk) where
  abbrev queue : EventQueue S
  queue = new_queue (some c) (some to) task_id

  abbrev handler_run : Async S (Unit {0})
  handler_run = handler context (enqueue_event sdk env enqueue_base queue)

  -- What is published after the handler has ended with `r`, in front of the journal `j`.
  abbrev pub markers : Result (Unit {0}) → List Published → List Published
  markers (ok _) j = completed_marker sdk to task_id ∷ j
  markers (raise x) j =
      if is_exception x
      then completed_marker sdk to task_id ∷ failed_marker sdk to ∷ j
      else completed_marker sdk to task_id ∷ j
