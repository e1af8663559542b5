-- ===== src/Client/Codec.antt =====
-- `_encode`, `_decode_response` and `_parse_messages` of python/mq9/client.py.
pub mod RoundTrip
use mq.Base.{ℕ, Text, Bytes, codes, text_eq, Bool, Option, none, some, List, [], ◌∷◌, if◌then◌else◌}
use mq.Py.Exceptions.{
  Exn, Result, ok, raise, mq9_error, key_error, value_error, attribute_error, type_error, or_raise,
  map_result, ◌>>=◌,
}
use mq.Py.Json.{Json, null, bool, int, str, arr, obj, Items, Fields, nil, end, get, truthy, to_list}
use mq.Py.Utf8.{utf8_encode}
use mq.Py.Dumps.{dumps}
use mq.Py.Base64.{b64decode}
use mq.Client.Types.{
  Priority, normal, urgent, critical, Payload, decoded, passed, Message, Body, of_bytes, of_str,
  of_dict,
}

unfoldable pub encode : Body → Result Bytes
encode (of_bytes b) = ok b
encode (of_str s) = utf8_encode s
encode (of_dict d) = utf8_encode (dumps (obj d))

-- `v[k]`
abbrev pub subscript : Json → Text → Result Json
subscript (obj d) k = or_raise (get k d) (key_error k)
subscript _ k = raise (type_error (codes "not subscriptable by a str"))

-- `v.get`, which only a dict has
abbrev pub as_dict : Json → Result Fields
as_dict (obj d) = ok d
as_dict _ = raise (attribute_error (codes "get"))

abbrev pub or_null : Option Json → Json
or_null none = null
or_null (some v) = v

-- `_decode_response` on a value that `json.loads` has returned
unfoldable pub check_response : Json → Result Fields
check_response resp = do
  d ← as_dict resp
  if truthy (or_null (get (codes "error") d))
      then raise (mq9_error (or_null (get (codes "error") d)))
      else ok d

unfoldable pub decode_response : (Bytes → Result Json) → Bytes → Result Fields
decode_response loads data' = do resp ← loads data'; check_response resp

-- `Priority(v)`
unfoldable pub priority_of : Json → Result Priority
priority_of (str s) =
    if text_eq s (codes "normal")
    then ok normal
    else if text_eq s (codes "urgent")
    then ok urgent
    else if text_eq s (codes "critical")
    then ok critical
    else raise (value_error (codes "not a valid Priority"))
priority_of _ = raise (value_error (codes "not a valid Priority"))

-- `item.get("priority", Priority.NORMAL)`, as `Priority` takes it
unfoldable pub item_priority : Option Json → Result Priority
item_priority none = ok normal
item_priority (some v) = priority_of v

unfoldable pub decode_payload : Json → Result Payload
decode_payload (str s) = do b ← b64decode s; ok (decoded b)
decode_payload v = ok (passed v)

-- One round of the loop of `_parse_messages`. A value that has `["payload"]` is a dict.
unfoldable pub parse_message : Json → Result Message
parse_message item = do
  raw ← subscript item (codes "payload")
  payload ← decode_payload raw
  msg_id ← subscript item (codes "msg_id")
  d ← as_dict item
  priority ← item_priority (get (codes "priority") d)
  create_time ← subscript item (codes "create_time")
  ok (record { msg_id = msg_id; payload = payload; priority = priority; create_time = create_time })

-- The items of `resp.get("messages") or []`. Iterating over a number is a TypeError; over a `str`
-- or a `dict` it gives strings, at the first of which `item["payload"]` is one.
abbrev pub iterate : Json → Result (List Json)
iterate (arr vs) = ok (to_list vs)
iterate _ = raise (type_error (codes "not a list of dicts"))

unfoldable pub parse_messages : List Json → Result (List Message)
parse_messages raw = map_result parse_message raw

unfoldable pub messages_of : Fields → Result (List Message)
messages_of resp =
    let v = or_null (get (codes "messages") resp) in
    if truthy v then (do raw ← iterate v; parse_messages raw) else ok []
