-- ===== src/Tests/World.antt =====
-- A small network: a broker that records what it is sent and answers from a fixed table.
use mq.Base.{text_eq, if◌then◌else◌, ℕ, ◌+◌, Bytes, codes, pos, false, some, List, [], ◌∷◌}
use mq.Py.Exceptions.{ok}
use mq.Py.Json.{int, str, arr, obj, Fields, nil, cons, end, field}
use mq.Client.Types.{Nats, Env, Mq9Client, Message, normal, decoded}
use mq.Client.Connection.{new_client}
use mq.Client.Codec.RoundTrip.{Stored, wire_item}
use mq.Client.Consumer.AckOrder.{Event, sent}
use mq.A2a.Events.Journal.{Published}

pub record Net : Type 0 where
  pub live : List ℕ
  pub next : ℕ
  pub journal : List Event
  pub published : List Published
  -- the message that the mailbox holds
  pub cell : Bytes

abbrev pub start : Net
start = record { live = []; next = 1; journal = []; published = []; cell = codes "old" }

abbrev pub drop_first : List ℕ → List ℕ
drop_first [] = []
drop_first (k ∷ l) = l

-- Every request is answered with the message that the mailbox `box.tasks` holds, and every publish
-- to that mailbox replaces it.
abbrev pub nats : Nats Net
nats = record {
  request = λ t b ms s. (ok s.cell, record s { journal = sent t b ∷ s.journal });
  new_inbox = λ s. (ok (codes "inbox"), s);
  subscribe = λ t s. (ok s.next, record s { live = s.next ∷ s.live; next = s.next + 1 });
  publish = λ t b r h s. (
    ok tt,
    record s {
      published = (t, b, h) ∷ s.published;
      cell = if text_eq t (codes "$mq9.AI.MSG.SEND.box.tasks") then b else s.cell;
    },
  );
  deliveries = λ k ms s. (ok (s.cell ∷ codes "late" ∷ []), s);
  unsubscribe = λ k s. (ok tt, record s { live = drop_first s.live });
  is_closed = λ s. (ok false, s);
  drain = λ s. (ok tt, s);
}

abbrev pub stored : Bytes → Stored
stored b = record { id = int (pos 7); bytes = b; priority = normal; created = int (pos 1) }

-- One object that serves as the reply of SEND, of MAILBOX.CREATE and of FETCH.
abbrev pub reply_of : Bytes → Fields
reply_of b = field (codes "msg_id") (int (pos 7)) (
    field (codes "mail_address") (str (codes "box"))
      (field (codes "messages") (arr (cons (wire_item (stored b)) nil)) end))

abbrev pub env : Env Net
env = record {
  connect = λ server attempts delay s. (ok nats, s);
  loads = λ b. ok (obj (reply_of b));
  sleep = λ ms s. (ok tt, s);
  format = λ v. [];
}

abbrev pub client : Mq9Client Net
client = record (new_client (codes "nats://localhost:4222") 5000) { nc = some nats }

abbrev pub task_message : Message
task_message = record {
  msg_id = int (pos 7);
  payload = decoded (codes "task");
  priority = normal;
  create_time = int (pos 1);
}
