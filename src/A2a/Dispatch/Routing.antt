-- ===== src/A2a/Dispatch/Routing.antt =====
-- Where `_dispatch` sends a message that has headers.
use mq.Base.{Text, text_eq, Bool, false, Option, none, some, [], ◌∷◌, ◌≡◌, refl, arith}
use mq.Py.Exceptions.{ok}
use mq.Py.Async.{Async, pure, try_except}
use mq.Py.Dict.{Headers, lookup}
use mq.Client.Types.{Env, Priority}
use mq.Client.Headers.Decode.{lookup-set_header}
use mq.A2a.Types.{Sdk, header_method, header_reply_to, header_type}
use mq.A2a.Events.{event_headers}
use mq.A2a.Agent.{Agent}
use mq.A2a.Dispatch.{Incoming, headers_or_empty, handle_send_message, route, dispatch}

lookup-other :
    (k type_name : Text)
    → text_eq header_type k ≡ false
    → lookup k ((header_type, type_name) ∷ []) ≡ none
unfolding lookup
lookup-other k type_name h = rw h

-- The headers of an event name no method and no address to reply to.
event_headers_plain :
    (n : Text) (last : Bool) (task_id : Option Text) (p : Priority)
    → (lookup header_method (event_headers n last task_id p) ≡ none)
      × (lookup header_reply_to (event_headers n last task_id p) ≡ none)
unfolding event_headers text_eq
event_headers_plain n last task_id p =
    simp lookup-set_header (lookup-other header_method n refl, lookup-other header_reply_to n refl)

read_headers :
    (msg : Incoming) (h : Headers) → msg.headers ≡ some (some h) → headers_or_empty msg ≡ ok h
unfolding headers_or_empty
read_headers msg h e = ground (arith, e)

module _ (sdk : Sdk) {S : Type 0} (env : Env S) (enqueue_base : sdk.Event → Async S (Unit {0}))
    (agent : Agent sdk S) where
  -- A forwarded event, whatever task id it carries, is handled as a new SendMessage request with no
  -- address to reply to: the task id plays no part in the routing.
  event_is_send_message :
      (msg : Incoming) (n : Text) (last : Bool) (task_id : Option Text) (p : Priority) (s : S)
      → msg.headers ≡ some (some (event_headers n last task_id p))
      → dispatch sdk env enqueue_base agent msg s
        ≡ try_except (handle_send_message sdk env enqueue_base agent msg none) (λ _. pure tt) s
  unfolding dispatch route text_eq
  event_is_send_message msg n last task_id p s e =
      let (a, b) = event_headers_plain n last task_id p in rw (read_headers msg _ e, a, b)
