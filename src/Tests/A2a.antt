-- ===== src/Tests/A2a.antt =====
-- The theorems about the A2A facade at concrete inputs.
use mq.Base.{
  Text, Bytes, codes, text_eq, pos, false, Option, none, some, [], ◌∷◌, ◌≡◌, refl, sym, subst,
  arith, if◌then◌else◌,
}
use mq.Py.Exceptions.{Exn, Result, ok, raise, value_error, runtime_error}
use mq.Py.Json.{int, Fields, end, get, truthy}
use mq.Py.Async.{Async, pure}
use mq.Py.Dict.{Headers}
use mq.Py.Dumps.Ascii.{utf8_encode-dumps}
use mq.Client.Types.{decoded, critical}
use mq.Client.Codec.{check_response, decode_response, encode}
use mq.Client.Consumer.{ConsumeOptions, default_consume, consume, rounds, new_consumer}
use mq.A2a.Types.{Sdk, TaskState, HandlerFn}
use mq.A2a.Events.{event_headers}
use mq.A2a.Events.Journal.{Publishes}
use mq.A2a.Agent.{Agent, new_agent}
use mq.A2a.Dispatch.{Incoming}
use mq.A2a.Dispatch.Headerless.{on_delivery, never_processes}
use mq.Client.Connection.{request_with_headers}
use mq.A2a.Dispatch.Stream.{TakesEvents}
use mq.A2a.Dispatch.Terminal.{PrintsMarkers}
use mq.A2a.Lifecycle.{World, register, unregister}
use mq.A2a.Lifecycle.Tasks.{IsFresh, Accepts, register_starts, register_twice_leaks}
use mq.Client.Connection.{new_client}
use mq.Client.Agents.{agent_register}
use mq.Tests.World.{reply_of, Net, start, nats, env, client}

-- A task is its id and its state; every payload parses.
pub record ToyTask : Type 0 where
  pub id : Text
  pub state : Option TaskState

abbrev pub sdk : Sdk
sdk = record {
  Task = ToyTask;
  Request = Text;
  Context = Option Text;
  Event = TaskState;
  AgentCard = Text;
  id_of = λ t. t.id;
  empty_task = record { id = []; state = none };
  with_state = λ st t. record t { state = some st };
  task_json = λ t. ok (codes "task");
  parse_task = λ p. ok (record { id = codes "t1"; state = none });
  tasks_json = λ ts. ok (codes "tasks");
  parse_tasks = λ p. ok [];
  request_json = λ r. ok r;
  parse_request = λ p. ok (codes "hello");
  get_task_json = λ i. ok (codes "task");
  parse_get_task = λ p. ok (codes "t1");
  list_tasks_json = λ n. ok (codes "list");
  parse_list_tasks = λ p. ok (pos 10);
  cancel_task_json = λ i. ok i;
  parse_cancel_task = λ p. ok (codes "t1");
  status_update = λ i st. st;
  event_json = λ e. ok (codes "event");
  event_type = λ e. codes "TaskStatusUpdateEvent";
  new_context = λ r i. ok i;
  description = λ card. card;
  card_dict = λ card. end;
}

abbrev pub enqueue : TaskState → Async Net (Unit {0})
enqueue e = pure tt

-- A handler that raises.
abbrev failing : HandlerFn sdk Net
failing context emit s = (raise (value_error (codes "boom")), s)

abbrev pub agent : Agent sdk Net
agent = record (new_agent sdk Net (codes "nats://localhost:4222") 60000) {
  executor = some failing;
  mq9 = some client;
  mailbox = some (codes "box");
  agent_name = some (codes "box");
}

abbrev workers : ConsumeOptions
workers = record (default_consume (codes "box")) { group_name = some (codes "box.workers") }

never_processes_example :
    (rounds env client workers
      (on_delivery sdk env enqueue agent)
      none
      5
      (consume start)).1.consumer
    ≡ new_consumer
never_processes_example = never_processes sdk env enqueue agent client workers 5 (consume start)

abbrev event_message : Incoming
event_message = record {
  msg_id = int (pos 7);
  payload = decoded (codes "event");
  headers =
      some
        (some (event_headers (codes "TaskStatusUpdateEvent") false (some (codes "t1")) critical));
}

pub nats-Publishes : Publishes nats (λ (s : Net). s.published)
nats-Publishes = record {
  inbox = λ s. (codes "inbox", refl);
  inbox_quiet = λ s. refl;
  subscribed = λ t s. (s.next, refl);
  subscribe_quiet = λ t s. refl;
  published = λ t b r h s. refl;
  wait_quiet = λ k ms s. refl;
  unsubscribe_quiet = λ k s. refl;
}

pub sdk-PrintsMarkers : PrintsMarkers sdk
sdk-PrintsMarkers = record {
  completed_prints = (codes "event", refl);
  failed_prints = (codes "event", refl);
}

answered :
    (subject : Text) (b : Bytes) (h : Headers) (s : Net)
    → (request_with_headers env client subject b h s).0
      ≡ ok (reply_of (if text_eq subject (codes "$mq9.AI.MSG.SEND.box.tasks") then b else s.cell))
unfolding request_with_headers mq.Client.Connection.exchange mq.Client.Connection.publish_and_wait
    mq.Client.Connection.wait_for decode_response check_response truthy get text_eq
answered subject b h s = refl

pub env-TakesEvents : TakesEvents env client enqueue (λ (s : Net). s.published)
env-TakesEvents = record {
  takes = λ event s. refl;
  quiet = λ event s. refl;
  uncancelled = λ subject b h s x p. cc (answered subject b h s);
}

abbrev pub world : World sdk Net
world = record { agent = agent; net = start; running = 0 ∷ []; next_task = 1; counts = λ k. 0 }

abbrev offline : World sdk Net
offline = record world { agent = new_agent sdk Net (codes "nats://localhost:4222") 60000 }

pub world-IsFresh : IsFresh world
world-IsFresh = record { below = omega arith }

pub register_accepted : (body : Fields) (s : Net) → (agent_register env client body s).0 ≡ ok tt
unfolding agent_register encode mq.Client.Connection.request decode_response check_response get
    truthy text_eq
register_accepted body s = rw utf8_encode-dumps

world-Accepts : Accepts sdk env (codes "card") world
world-Accepts = record {
  client = client;
  mailbox = codes "box";
  connected = refl;
  created = refl;
  accepted = register_accepted _ start;
}

registered-Accepts : Accepts sdk env (codes "card") (register sdk env (codes "card") world).1
registered-Accepts =
    let (net, p) = register_starts sdk env (codes "card") world world-Accepts in
    subst (Accepts sdk env (codes "card")) (sym p) (record {
      client = client;
      mailbox = codes "box";
      connected = refl;
      created = refl;
      accepted = register_accepted _ net;
    })

register_twice_leaks_example :
    (unregister sdk env
      (register sdk env (codes "card") (register sdk env (codes "card") world).1).1).1.running
    ≡ 1 ∷ 0 ∷ []
register_twice_leaks_example =
    register_twice_leaks sdk env (codes "card") (codes "card") world world-IsFresh world-Accepts
      registered-Accepts
