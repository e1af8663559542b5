-- ===== src/Client/Types.antt =====
-- The data of python/mq9/client.py, and what the client uses of nats-py and asyncio.
use mq.Base.{ℕ, Text, Bytes, codes, Bool, Option, List}
use mq.Py.Exceptions.{Result}
use mq.Py.Json.{Json, Fields}
use mq.Py.Async.{Async}
use mq.Py.Dict.{Headers}

pub data Priority : Type 0 where
  normal urgent critical : Priority

-- `Priority.value`
abbrev pub value : Priority → Text
value normal = codes "normal"
value urgent = codes "urgent"
value critical = codes "critical"

-- `base64.b64decode` gives bytes; a payload that is no `str` is passed on as it is.
pub data Payload : Type 0 where
  decoded : Bytes → Payload
  passed : Json → Payload

-- The dataclass checks no type, so `msg_id` and `create_time` are whatever the reply holds.
pub record Message : Type 0 where
  pub msg_id : Json
  pub payload : Payload
  pub priority : Priority
  pub create_time : Json

-- What `_encode` takes.
pub data Body : Type 0 where
  of_bytes : Bytes → Body
  of_str : Text → Body
  of_dict : Fields → Body

-- A connection of nats-py over the state `S` of the network and the broker. Times are in
-- milliseconds.
pub record Nats (S : Type 0) : Type 0 where
  -- `(await nc.request(subject, payload, timeout=timeout)).data`
  pub request : Text → Bytes → ℕ → Async S Bytes
  pub new_inbox : Async S Text
  -- the number of the new subscription
  pub subscribe : Text → Async S ℕ
  -- subject, payload, reply inbox, headers
  pub publish : Text → Bytes → Text → Headers → Async S (Unit {0})
  -- what a subscription's callback is called with, in order, while the caller waits for a time
  pub deliveries : ℕ → ℕ → Async S (List Bytes)
  pub unsubscribe : ℕ → Async S (Unit {0})
  pub is_closed : Async S Bool
  pub drain : Async S (Unit {0})

-- The other library calls: `nats.connect`, `json.loads`, `asyncio.sleep`, and the text of a value
-- in an f-string.
pub record Env (S : Type 0) : Type 0 where
  -- server, reconnect attempts, reconnect delay
  pub connect : Text → ℕ → ℕ → Async S (Nats S)
  pub loads : Bytes → Result Json
  pub sleep : ℕ → Async S (Unit {0})
  pub format : Json → Text

pub record Mq9Client (S : Type 0) : Type 0 where
  pub server : Text
  pub request_timeout : ℕ
  pub reconnect_attempts : ℕ
  pub reconnect_delay : ℕ
  pub nc : Option (Nats S)
