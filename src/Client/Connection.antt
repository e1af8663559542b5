-- ===== src/Client/Connection.antt =====
-- The connection of a `Mq9Client` and its two ways to make a request.
pub mod Subscriptions
pub mod Replies
use mathlib.Core.List.{foldl}
use mq.Base.{ℕ, Text, Bytes, codes, Bool, Option, none, some, List, if◌then◌else◌}
use mq.Py.Exceptions.{Exn, Result, ok, raise, mq9_error, timeout_error, or_raise}
use mq.Py.Json.{Json, str, Fields}
use mq.Py.Async.{Async, pure, throw, lift, ◌>>=◌, ◌>>◌, try_finally}
use mq.Py.Dict.{Headers}
use mq.Client.Types.{Nats, Env, Mq9Client}
use mq.Client.Codec.{decode_response}

module _ {S : Type 0} where
  -- `Mq9Client(server)` with the timeout given
  abbrev pub new_client : Text → ℕ → Mq9Client S
  new_client server request_timeout = record {
    server = server;
    request_timeout = request_timeout;
    reconnect_attempts = 5;
    reconnect_delay = 2000;
    nc = none;
  }

  abbrev pub nc_or_raise : Mq9Client S → Result (Nats S)
  nc_or_raise c =
      or_raise c.nc (mq9_error (str (codes "Client is not connected. Call connect() first.")))

  -- Only `_nc` is assigned.
  unfoldable pub connect : Env S → Mq9Client S → Async S (Mq9Client S)
  connect env c = do
    nc ← env.connect c.server c.reconnect_attempts c.reconnect_delay
    pure (record c { nc = some nc })

  abbrev close_nc : Option (Nats S) → Async S (Unit {0})
  close_nc none = pure tt
  close_nc (some nc) = do closed ← nc.is_closed; if closed then pure tt else nc.drain

  unfoldable pub close : Mq9Client S → Async S (Unit {0})
  close c = close_nc c.nc

  unfoldable pub request : Env S → Mq9Client S → Text → Bytes → Async S Fields
  request env c subject payload = do
    nc ← lift (nc_or_raise c)
    reply ← nc.request subject payload c.request_timeout
    lift (decode_response env.loads reply)

-- `_handler`: the future keeps the first message that it is given.
abbrev pub set_future : Option Bytes → Bytes → Option Bytes
set_future none reply = some reply
set_future (some first) reply = some first

-- `asyncio.wait_for(future, timeout)`, after the callback has had these messages
unfoldable pub wait_for : List Bytes → Result Bytes
wait_for replies = or_raise (foldl set_future none replies) timeout_error

module _ {S : Type 0} where
  -- the body of the `try`
  unfoldable pub publish_and_wait : Nats S → ℕ → ℕ → Text → Bytes → Text → Headers → Async S Bytes
  unfolding wait_for
  publish_and_wait nc timeout sub subject payload reply_inbox headers = do
    nc.publish subject payload reply_inbox headers
    replies ← nc.deliveries sub timeout
    lift (wait_for replies)

  -- what follows `subscribe`
  unfoldable pub exchange : Env S → Nats S → ℕ → Text → Bytes → Headers → Text → ℕ → Async S Fields
  exchange env nc timeout subject payload headers reply_inbox sub = do
    reply ←
        try_finally (publish_and_wait nc timeout sub subject payload reply_inbox headers)
          (nc.unsubscribe sub)
    lift (decode_response env.loads reply)

  unfoldable pub request_with_headers :
      Env S → Mq9Client S → Text → Bytes → Headers → Async S Fields
  unfolding exchange
  request_with_headers env c subject payload headers = do
    nc ← lift (nc_or_raise c)
    reply_inbox ← nc.new_inbox
    sub ← nc.subscribe reply_inbox
    exchange env nc c.request_timeout subject payload headers reply_inbox sub
