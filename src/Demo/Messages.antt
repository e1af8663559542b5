-- ===== src/Demo/Messages.antt =====
-- demo/python/message_demo.py: one mailbox, its messages, and a consumer. What the demo prints is
-- left out, but for what reading a payload can raise.
use mq.Base.{ℕ, Text, codes, pos, true, none, some, List, [], ◌∷◌}
use mq.Py.Exceptions.{Exn, Result, raise, type_error, map_result}
use mq.Py.Json.{Json, bool, int, str, Fields, field, end}
use mq.Py.Async.{Async, pure, lift, ◌>>=◌, ◌>>◌}
use mq.Client.Types.{Env, Mq9Client, Payload, decoded, passed, Message, urgent, critical, of_dict}
use mq.Client.Headers.{Options, default_options}
use mq.Client.Messaging.{
  mailbox_create, send, fetch, ack, query, delete, FetchOptions, default_fetch,
}
use mq.Client.Consumer.{ConsumeOptions, default_consume, Running, consume, rounds, stop, on_net}
use mq.A2a.Calls.{address_text}
use mq.Langchain.Session.{with_client}
use mq.Langchain.Tools.{last_id}

abbrev one : Text → Json → Fields
one k v = field k v end

abbrev numbered : Text → ℕ → Fields
numbered kind id = field (codes "type") (str kind) (field (codes "id") (int (pos id)) end)

abbrev workers : FetchOptions
workers = record default_fetch {
  group_name = some (codes "workers");
  deliver = codes "earliest";
  num_msgs = pos 10;
}

abbrev pub consume_options : Text → ConsumeOptions
consume_options address = record (default_consume address) {
  group_name = some (codes "consume-workers");
  deliver = codes "earliest";
  auto_ack = true;
}

module _ {S : Type 0} (env : Env S) where
  -- `json.loads(msg.payload)`, which takes no value that is not a text
  unfoldable pub read_payload : Message → Result Json
  read_payload msg = read msg.payload
    where
      read : Payload → Result Json
      read (decoded b) = env.loads b
      read (passed v) = raise (type_error (codes "no text"))

  abbrev pub show_all : List Message → Async S (Unit {0})
  show_all messages = do _ ← lift (map_result read_payload messages); pure tt

  unfoldable pub handler : Message → Async S (Unit {0})
  handler msg = do _ ← lift (read_payload msg); pure tt

  abbrev pub on_error : Message → Exn → Async S (Unit {0})
  on_error msg exc = pure tt

  module _ (client : Mq9Client S) (address : Text) where
    abbrev pub send_with : Options → Fields → Async S Json
    send_with options body = send env client address (of_dict body) options

    -- The sections 2 and 3: messages of each priority, and with each attribute.
    unfoldable pub send_all : Async S Json
    send_all = do
      mid1 ← send_with default_options (numbered (codes "task") 1)
      _ ← send_with (record default_options { priority = urgent }) (numbered (codes "interrupt") 2)
      _ ← send_with (record default_options { priority = critical }) (numbered (codes "abort") 3)
      let status = record default_options { key = some (codes "status") }
      _ ← send_with status (one (codes "status") (str (codes "running")))
      _ ← send_with status (one (codes "status") (str (codes "60%")))
      _ ← send_with status (one (codes "status") (str (codes "done")))
      _ ←
          send_with (record default_options { tags = some (codes "billing" ∷ codes "vip" ∷ []) })
            (one (codes "order") (str (codes "o-001")))
      _ ←
          send_with (record default_options { ttl = some (pos 10) })
            (one (codes "temp") (bool true))
      _ ←
          send_with (record default_options { delay = some (pos 5) })
            (one (codes "delayed") (bool true))
      pure mid1

    -- `if messages`
    abbrev pub ack_last : List Message → Async S (Unit {0})
    ack_last [] = pure tt
    ack_last (msg ∷ msgs) = ack env client address (codes "workers") (last_id (msg ∷ msgs))

    unfoldable pub fetch_and_ack : Async S (Unit {0})
    fetch_and_ack = do
      messages ← fetch env client address workers
      show_all messages
      ack_last messages

    -- The consumer makes `n` rounds while its caller sleeps for three seconds, here put before the
    -- sleep; `unwind` is what its task still does until the cancellation has ended it. What the
    -- loop has ended with is dropped.
    unfoldable pub consume_for : ℕ → Async (Running S) (Unit {0}) → Async S (Unit {0})
    consume_for n unwind s =
        let w =
          (rounds env client (consume_options address) handler (some on_error) n (consume s)).1 in
        let r = (on_net (env.sleep 3000) >> stop unwind) w in (r.0, r.1.net)

  -- The body of `async with`.
  unfoldable pub session : ℕ → Async (Running S) (Unit {0}) → Mq9Client S → Async S (Unit {0})
  session n unwind client = do
    created ← mailbox_create env client (some (codes "demo.python.message")) (pos 300)
    address ← lift (address_text created)
    mid1 ← send_all client address
    fetch_and_ack client address
    results ← query env client address (some (codes "status")) none none
    show_all results
    consume_for client address n unwind
    delete env client address mid1

  unfoldable pub main : Text → ℕ → Async (Running S) (Unit {0}) → Async S (Unit {0})
  main server n unwind = with_client env server (session n unwind)
