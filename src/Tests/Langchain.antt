-- ===== src/Tests/Langchain.antt =====
-- The theorems about the LangChain tools at concrete inputs.
use mq.Base.{
  ℕ, ◌+◌, ◌-◌, Text, Bytes, codes, text_eq, pos, List, [], ◌∷◌, map, All, ◌≡◌, ◌≢◌, refl, ap, sym,
  arith, false,
}
use mq.Py.Exceptions.{Result, ok, raise, value_error}
use mq.Py.Json.{Json, int, obj, arr, of_list, field, end, get, truthy}
use mq.Py.Utf8.{utf8_encode, encode_char}
use mq.Client.Codec.{decode_response, check_response, messages_of}
use mq.Client.Codec.RoundTrip.{Stored, wire_item, message_of, parse_messages-wire_items}
use mq.Client.Connection.{connect, request}
use mq.Client.Messaging.{fetch_body}
use mq.Tests.Store.{encodes}
use mq.Py.Text.{is_space, join}
use mq.Py.Text.Split.{IsWord}
use mq.Client.Types.{Nats, Env, Priority, normal, urgent, critical, value}
use mq.Client.Messaging.{fetch}
use mq.Langchain.Inputs.{
  CreateMailboxInput, SendMessageInput, FetchMessagesInput, AckInput, QueryMessagesInput,
  DeleteMessageInput, AgentRegisterInput, AgentDiscoverInput, fetch_messages_input,
}
use mq.Langchain.Session.{with_client, within}
use mq.Langchain.Show.{newline}
use mq.Langchain.Show.Lines.{Sent, IsPlain, as_message, line_of}
use mq.Langchain.Tools.{
  create_mailbox_tool, send_message_tool, fetch_messages_tool, ack_messages_tool,
  query_messages_tool, delete_message_tool, agent_register_tool, agent_discover_tool, fetch_header,
  fetch_options,
}
use mq.Langchain.Session.Watched.{watched, Answers}
use mq.Langchain.Tools.Closes.{tools_close}
use mq.Langchain.Tools.Priorities.{unknown_priority}
use mq.Langchain.Tools.Sends.{fetch_shows_texts}

-- A network whose state is the number of its open connections. Its broker answers nothing.
abbrev line : Nats ℕ
line = record {
  request = λ t b ms s. (ok [], s);
  new_inbox = λ s. (ok (codes "inbox"), s);
  subscribe = λ t s. (ok 1, s);
  publish = λ t b r h s. (ok tt, s);
  deliveries = λ k ms s. (ok [], s);
  unsubscribe = λ k s. (ok tt, s);
  is_closed = λ s. (ok false, s);
  drain = λ s. (ok tt, s - 1);
}

abbrev pub lines_with : (Bytes → Result Json) → Env ℕ
lines_with loads = record {
  connect = λ server attempts delay s. (ok line, s + 1);
  loads = loads;
  sleep = λ ms s. (ok tt, s);
  format = λ v. [];
}

abbrev lines : Env ℕ
lines = lines_with (λ b. raise (value_error []))

abbrev nats_of : Result (Nats ℕ) → Nats ℕ
nats_of (ok nc) = nc
nats_of (raise e) = line

pub lines-Answers : (loads : Bytes → Result Json) → Answers (lines_with loads)
lines-Answers loads = record {
  answers = λ a n d s nc p w. (false, sym (ap (λ r. ((nats_of r).is_closed w).0) p));
}

tools_close_example :
    ((i : CreateMailboxInput)
      → (create_mailbox_tool (watched lines) (codes "nats://localhost:4222") i (3, 2)).1.1 ≡ 2)
    × ((i : SendMessageInput)
        → (send_message_tool (watched lines) (codes "nats://localhost:4222") i (3, 2)).1.1 ≡ 2)
    × ((i : FetchMessagesInput)
        → (fetch_messages_tool (watched lines) (codes "nats://localhost:4222") i (3, 2)).1.1 ≡ 2)
    × ((i : AckInput)
        → (ack_messages_tool (watched lines) (codes "nats://localhost:4222") i (3, 2)).1.1 ≡ 2)
    × ((i : QueryMessagesInput)
        → (query_messages_tool (watched lines) (codes "nats://localhost:4222") i (3, 2)).1.1 ≡ 2)
    × ((i : DeleteMessageInput)
        → (delete_message_tool (watched lines) (codes "nats://localhost:4222") i (3, 2)).1.1 ≡ 2)
    × ((i : AgentRegisterInput)
        → (agent_register_tool (watched lines) (codes "nats://localhost:4222") i (3, 2)).1.1 ≡ 2)
    × ((i : AgentDiscoverInput)
        → (agent_discover_tool (watched lines) (codes "nats://localhost:4222") i (3, 2)).1.1 ≡ 2)
tools_close_example =
    tools_close lines (lines-Answers lines.loads) (codes "nats://localhost:4222") 3 2

high_is_none : (p : Priority) → codes "high" ≢ value p
unfolding text_eq
high_is_none normal e = cc e
high_is_none urgent e = cc e
high_is_none critical e = cc e

unknown_priority_example :
    send_message_tool lines
      (codes "nats://localhost:4222")
      (record { mail_address = codes "box"; content = codes "hi"; priority = codes "high" })
      3
    ≡ send_message_tool lines
        (codes "nats://localhost:4222")
        (record { mail_address = codes "box"; content = codes "hi"; priority = codes "normal" })
        3
unknown_priority_example =
    unknown_priority lines (codes "nats://localhost:4222") (codes "box") (codes "hi") (codes "high")
      3 high_is_none

abbrev words : List Text
words = codes "an" ∷ codes "a" ∷ codes "to" ∷ codes "b" ∷ []

words-AreWords : All IsWord words
unfolding is_space
words-AreWords = (
  ((refl, (refl, tt)), λ e. cc e),
  (((refl, tt), λ e. cc e), (((refl, (refl, tt)), λ e. cc e), (((refl, tt), λ e. cc e), tt))),
)

abbrev sent : Text → Priority → Sent
sent t p = record { id = int (pos 7); text = t; priority = p; created = int (pos 1); bytes = t }

abbrev on_broker : Sent → Stored
on_broker m = record { id = m.id; bytes = m.bytes; priority = m.priority; created = m.created }

abbrev two_sent : List Sent
two_sent = sent (codes "hi") urgent ∷ sent (codes "yo") normal ∷ []

-- The reply to a fetch is the one JSON object that arrives. The texts are no JSON.
abbrev load : Bytes → Result Json
load [] =
    ok (obj (field (codes "messages") (arr (of_list (map wire_item (map on_broker two_sent)))) end))
load (c ∷ b) = raise (value_error [])

abbrev mail : Env ℕ
mail = record lines { loads = load }

two_sent-IsPlain : All (IsPlain mail.loads mail.format) two_sent
unfolding utf8_encode encode_char
two_sent-IsPlain = (
  record {
    points = (omega arith, (omega arith, tt));
    encoded = refl;
    error = value_error [];
    no_json = refl;
  },
  (
    record {
      points = (omega arith, (omega arith, tt));
      encoded = refl;
      error = value_error [];
      no_json = refl;
    },
    tt,
  ),
)

abbrev input : FetchMessagesInput
input = fetch_messages_input (codes "box")

fetched :
    (with_client mail
      (codes "nats://localhost:4222")
      (λ client. fetch mail client (codes "box") (fetch_options input))
      0).0
    ≡ ok (map as_message two_sent)
unfolding with_client within connect fetch request decode_response check_response get truthy text_eq
    message_of wire_item messages_of mq.Client.Connection.close
fetched = rw (
  encodes (fetch_body (fetch_options input)),
  parse_messages-wire_items (map on_broker two_sent)
      ((omega arith, (omega arith, tt)), ((omega arith, (omega arith, tt)), tt)),
)

fetch_shows_texts_example :
    (fetch_messages_tool mail (codes "nats://localhost:4222") input 0).0
    ≡ ok (
        join newline (
          fetch_header mail (codes "nats://localhost:4222") (codes "box") (map as_message two_sent)
          ∷ map (line_of mail.loads mail.format) two_sent))
fetch_shows_texts_example =
    fetch_shows_texts mail (codes "nats://localhost:4222") input (sent (codes "hi") urgent)
      (sent (codes "yo") normal ∷ []) 0 two_sent-IsPlain fetched
