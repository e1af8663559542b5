-- ===== src/Tests/Client.antt =====
-- The theorems about the client at concrete inputs.
use mq.Base.{ℕ, codes, pos, negsuc, true, none, some, [], ◌∷◌, ◌≡◌, refl, ap, arith, ◌↔◌}
use mq.Py.Exceptions.{ok}
use mq.Py.Async.{Async}
use mq.Py.Async.OnlyCancelled.{IsCancelled}
use mq.Client.Types.{Message, urgent}
use mq.Client.Codec.{messages_of}
use mq.Client.Codec.RoundTrip.{wire_reply, message_of, messages_of-wire_reply}
use mq.Client.Connection.{request_with_headers}
use mq.Client.Connection.Subscriptions.{Tracks, live-request_with_headers}
use mq.Client.Headers.{Options, headers_of}
use mq.Client.Headers.Decode.{decode, decode-headers_of}
use mq.Client.Consumer.{
  Running, ConsumeOptions, default_consume, consume, handle_and_ack, handle_message,
  handle_messages, rounds,
}
use mq.Client.Consumer.Survival.{rounds_survive}
use mq.Client.Consumer.Counting.{Handles, counted, handle_messages_iff}
use mq.Client.Consumer.AckOrder.{handled, Journals, AcksFollow, acks_follow}
use mq.Tests.World.{Net, start, nats, env, client, stored, task_message, reply_of}

abbrev options : Options
options = record {
  priority = urgent;
  key = some (codes "status");
  delay = some (pos 60);
  ttl = some (negsuc 4);
  tags = some (codes "billing" ∷ codes "vip" ∷ []);
}

decode-headers_of_example : decode (headers_of options) ≡ options
decode-headers_of_example = decode-headers_of options (omega arith)

messages_of-wire_reply_example :
    messages_of (wire_reply (stored (codes "hi") ∷ stored [] ∷ []))
    ≡ ok (message_of (stored (codes "hi")) ∷ message_of (stored []) ∷ [])
messages_of-wire_reply_example =
    messages_of-wire_reply (stored (codes "hi") ∷ stored [] ∷ []) (omega arith)

nats-Tracks : Tracks nats (λ (s : Net). s.live)
nats-Tracks = record {
  inbox = λ s. refl;
  opened = λ t s k q. cc q;
  not_opened = λ t s e q. cc q;
  published = λ t b r h s. refl;
  delivered = λ k ms s. refl;
  closed = λ k s l h. ap mq.Tests.World.drop_first h;
}

live-request_with_headers_example :
    (request_with_headers env client (codes "s") (codes "task") [] start).1.live ≡ []
live-request_with_headers_example =
    live-request_with_headers nats (λ (s : Net). s.live) nats-Tracks env client refl (codes "s")
      (codes "task") [] start

abbrev recording : Message → Async Net (Unit {0})
recording msg s = (ok tt, record s { journal = handled msg ∷ s.journal })

abbrev workers : ConsumeOptions
workers = record (default_consume (codes "box")) { group_name = some (codes "workers") }

abbrev alone : ConsumeOptions
alone = default_consume (codes "box")

rounds_survive_example : IsCancelled (rounds env client workers recording none 3 (consume start)).0
rounds_survive_example =
    rounds_survive env client workers recording none (λ ms. record { at = λ s. tt }) 3
      (consume start)

-- The state after a batch of one message that is handled, with no group to acknowledge to.
abbrev one_handled : Running Net
one_handled = record {
  net = record start { journal = handled task_message ∷ [] };
  consumer = record { is_running = true; processed_count = 1 };
}

handles_one :
    handle_messages env client alone recording none (task_message ∷ []) (consume start)
    ≡ (ok tt, one_handled)
unfolding handle_messages handle_message handle_and_ack
handles_one = refl

handle_messages_iff_example :
    (handle_messages env client alone recording none (task_message ∷ []) (consume start)
      ≡ (ok tt, one_handled))
    ↔ ((n : ℕ) × Handles env client alone recording none (task_message ∷ []) start one_handled.net n
        × (one_handled ≡ counted env client alone recording none (consume start) one_handled.net n))
handle_messages_iff_example =
    handle_messages_iff env client alone recording none (task_message ∷ []) (consume start)
      one_handled

recording-Journals : Journals env nats recording none (λ (s : Net). s.journal)
recording-Journals = record {
  requested = λ t b ms s. refl;
  returned = λ msg s h. refl;
  raised = λ msg s e h. cc h;
  recovered = λ msg e s. refl;
  slept = λ ms s. refl;
}

acks_follow_example :
    AcksFollow
      (codes "box")
      (codes "workers")
      (rounds env client workers recording none 2 (consume start)).1.net.journal
acks_follow_example =
    acks_follow env client workers recording none nats refl (codes "workers") refl
      (λ (s : Net). s.journal) recording-Journals 2 (consume start) tt
