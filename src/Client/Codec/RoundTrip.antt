-- ===== src/Client/Codec/RoundTrip.antt =====
-- The reply that protocol.md documents for FETCH and QUERY, and what the client makes of it.
use mq.Base.{Bytes, codes, text_eq, List, [], ◌∷◌, map, All, ◌≡◌, refl, ap}
use mq.Py.Exceptions.{ok, map_result}
use mq.Py.Json.{Json, str, arr, obj, Fields, end, field, get, truthy, to_list, of_list}
use mq.Py.Base64.{b64encode}
use mq.Py.Base64.RoundTrip.{IsByte, b64decode-b64encode}
use mq.Client.Types.{Priority, normal, urgent, critical, value, decoded, Message}
use mq.Client.Codec.{
  check_response, priority_of, item_priority, decode_payload, parse_message, parse_messages,
  messages_of,
}

-- A message as the broker holds it.
pub record Stored : Type 0 where
  pub id : Json
  pub bytes : Bytes
  pub priority : Priority
  pub created : Json

-- The entry of a message in a reply.
unfoldable pub wire_item : Stored → Json
wire_item m = obj (
    field (codes "msg_id") m.id (
      field (codes "payload") (str (b64encode m.bytes)) (
        field (codes "priority") (str (value m.priority))
          (field (codes "create_time") m.created end))))

-- A reply that holds the messages.
unfoldable pub wire_reply : List Stored → Fields
wire_reply ms =
    field (codes "error") (str []) (field (codes "messages") (arr (of_list (map wire_item ms))) end)

-- The message that a caller is to get.
unfoldable pub message_of : Stored → Message
message_of m = record {
  msg_id = m.id;
  payload = decoded m.bytes;
  priority = m.priority;
  create_time = m.created;
}

priority_of-value : (p : Priority) → priority_of (str (value p)) ≡ ok p
unfolding priority_of text_eq
priority_of-value normal = refl
priority_of-value urgent = refl
priority_of-value critical = refl

parse_message-wire_item :
    (m : Stored) → All IsByte m.bytes → parse_message (wire_item m) ≡ ok (message_of m)
unfolding parse_message wire_item message_of decode_payload item_priority get text_eq
parse_message-wire_item m h = rw (b64decode-b64encode m.bytes h, priority_of-value m.priority)

to_list-of_list : (vs : List Json) → to_list (of_list vs) ≡ vs
to_list-of_list [] = refl
to_list-of_list (v ∷ vs) = ap (λ (ws : List Json). v ∷ ws) (to_list-of_list vs)

abbrev pub HasBytes : Stored → Type 0
HasBytes m = All IsByte m.bytes

pub parse_messages-wire_items :
    (ms : List Stored)
    → All HasBytes ms
    → parse_messages (map wire_item ms) ≡ ok (map message_of ms)
unfolding parse_messages map_result
parse_messages-wire_items [] h = refl
parse_messages-wire_items (m ∷ ms) h =
    rw (parse_message-wire_item m h.0, parse_messages-wire_items ms h.1)

-- The messages of a reply, also of an empty one, come out as the broker holds them: in its order,
-- with their ids, decoded payloads, priorities and times.
pub messages_of-wire_reply :
    (ms : List Stored) → All HasBytes ms → messages_of (wire_reply ms) ≡ ok (map message_of ms)
unfolding messages_of wire_reply get text_eq truthy
messages_of-wire_reply [] h = refl
messages_of-wire_reply (m ∷ ms) h = rw to_list-of_list (parse_messages-wire_items (m ∷ ms) h)

-- Such a reply is no error.
pub check_response-wire_reply :
    (ms : List Stored) → check_response (obj (wire_reply ms)) ≡ ok (wire_reply ms)
unfolding check_response wire_reply get text_eq truthy
check_response-wire_reply ms = refl
