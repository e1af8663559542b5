-- ===== src/Tests/Keyed.antt =====
-- A broker that keeps one message for each key, and the task store over it.
use mq.Base.{
  ℕ, Text, Bytes, codes, text_eq, text_eq_iff, text_eq_refl, pos, Bool, Bool-cases, inl, inr, true,
  false, Option, none, some, List, [], ◌∷◌, ◌++◌, append_assoc, All, ◌==◌, ◌≡◌, ◌≢◌, refl, ap, sym,
  ◌∙◌, arith, if◌then◌else◌,
}
use mq.Py.Exceptions.{Result, ok, raise, value_error}
use mq.Py.Async.{resume, lift}
use mq.Py.Json.{Json, int, arr, obj, get, truthy, end, field, nil}
use mq.Py.Dict.{Headers, lookup}
use mq.Py.Dumps.{dumps, dump_str, dump_chars, dump_char}
use mq.Py.Scan.{plain, scan}
use mq.Py.Scan.RoundTrip.{IsScalar, scan-dump_chars}
use mq.Py.Base64.RoundTrip.{IsByte}
use mq.Client.Types.{Nats, Env, Mq9Client, Message, Payload, decoded}
use mq.Client.Codec.{messages_of, decode_response, check_response, encode}
use mq.Client.Codec.RoundTrip.{message_of, wire_item, parse_messages-wire_items}
use mq.Client.Connection.{new_client, request}
use mq.Client.Messaging.{query, query_body}
use mq.A2a.Types.{Sdk}
use mq.A2a.TaskStore.{TaskStore, new_store, mark_ready, key_prefix}
use mq.A2a.TaskStore.Keyed.{post, look, answer, get-answer}
use mq.A2a.TaskStore.Refines.{
  IsKeyed, IsUnicode, Prints, Call, saves, gets, run, replay, run_refines,
}
use mq.Tests.World.{stored, reply_of}
use mq.Tests.A2a.{sdk}
use mq.Tests.Store.{encodes}

-- What a query of a body is answered with: nothing, or one message.
abbrev Cells : Type 0
Cells = Bytes → Option Bytes

abbrev body_of : Text → Bytes
body_of k = dumps (obj (query_body (some k) none none))

abbrev put_cell : Option Text → Bytes → Cells → Cells
put_cell none b s q = s q
put_cell (some k) b s q = if text_eq (body_of k) q then some b else s q

abbrev reply_to : Option Bytes → Bytes
reply_to none = []
reply_to (some b) = 1 ∷ b

abbrev load : Bytes → Result Json
load [] = ok (obj (field (codes "messages") (arr nil) end))
load (c ∷ b) = ok (obj (reply_of b))

abbrev nats : Nats Cells
nats = record {
  request = λ t b ms s. (ok (reply_to (s b)), s);
  new_inbox = λ s. (ok (codes "inbox"), s);
  subscribe = λ t s. (ok 1, s);
  publish = λ t b r h s. (ok tt, put_cell (lookup (codes "mq9-key") h) b s);
  deliveries = λ k ms s. (ok ((1 ∷ []) ∷ []), s);
  unsubscribe = λ k s. (ok tt, s);
  is_closed = λ s. (ok false, s);
  drain = λ s. (ok tt, s);
}

abbrev env : Env Cells
env = record {
  connect = λ server attempts delay s. (ok nats, s);
  loads = load;
  sleep = λ ms s. (ok tt, s);
  format = λ v. [];
}

abbrev client : Mq9Client Cells
client = record (new_client (codes "nats://localhost:4222") 5000) { nc = some nats }

abbrev box : Text
box = codes "box.tasks"

abbrev read_cell : Option Bytes → Result (List Message)
read_cell none = ok []
read_cell (some b) = messages_of (reply_of b)

read :
    (o : Option Bytes) (s : Cells)
    → (resume (decode_response load (reply_to o)) (λ resp. lift (messages_of resp)) s).0
      ≡ read_cell o
unfolding decode_response check_response get truthy text_eq messages_of
read none s = refl
read (some b) s = refl

look-cell :
    (k : Text) (s : Cells)
    → (query env client box (some k) none none s).0 ≡ read_cell (s (body_of k))
unfolding query request
look-cell k s = rw (encodes (query_body (some k) none none)) (read (s (body_of k)) s)

query-quiet : (k : Text) (s : Cells) → (query env client box (some k) none none s).1 ≡ s
unfolding query request
query-quiet k s = rw (encodes (query_body (some k) none none)) (ground (arith))

post-cell :
    (k : Text) (b : Bytes) (s : Cells)
    → post env client box k b s ≡ (ok (int (pos 7)), put_cell (some k) b s)
unfolding mq.Client.Messaging.send encode mq.Client.Headers.headers_of mq.Client.Headers.set_header
    mq.Py.Dict.insert mq.Client.Connection.request_with_headers mq.Client.Connection.exchange
    mq.Client.Connection.publish_and_wait mq.Client.Connection.wait_for decode_response
    check_response truthy get text_eq lookup
post-cell k b s = refl

-- The key that a body of a query asks for.
key_in : Bytes → Result (Text × Text)
key_in (c1 ∷ c2 ∷ c3 ∷ c4 ∷ c5 ∷ c6 ∷ c7 ∷ c8 ∷ c9 ∷ rest) = scan plain rest
key_in _ = raise (value_error [])

key_in-body_of : (k : Text) → IsUnicode k → key_in (body_of k) ≡ ok (k, b'}' ∷ [])
unfolding key_in dumps dump_str query_body dump_chars dump_char
key_in-body_of k u =
    ap (scan plain) (append_assoc (dump_chars k) (34 ∷ []) (b'}' ∷ []))
    ∙ scan-dump_chars k (b'}' ∷ []) u

key_of_scan : Result (Text × Text) → Text
key_of_scan (ok (k, rest)) = k
key_of_scan (raise e) = []

bodies_differ :
    (k j : Text) → IsUnicode k → IsUnicode j → k ≢ j → text_eq (body_of k) (body_of j) ≡ false
unfolding key_of_scan
bodies_differ k j u v ne = elim (Bool-cases (text_eq (body_of k) (body_of j))) [
  | inl e ↦ absurd (
      ne (
        sym (ap key_of_scan (key_in-body_of k u))
        ∙ ap (λ b. key_of_scan (key_in b)) ((text_eq_iff (body_of k) (body_of j)).0 e)
        ∙ ap key_of_scan (key_in-body_of j v)))
  | inr e ↦ e
]

stored_cell : (b : Bytes) → All IsByte b → read_cell (some b) ≡ ok (message_of (stored b) ∷ [])
unfolding messages_of get truthy text_eq wire_item
stored_cell b h = rw (parse_messages-wire_items (stored b ∷ []) (h, tt))

put_same : (k : Text) (b : Bytes) (s : Cells) → put_cell (some k) b s (body_of k) ≡ some b
put_same k b s = rw (text_eq_refl (body_of k))

put_other :
    (k j : Text) (b : Bytes) (s : Cells)
    → text_eq (body_of k) (body_of j) ≡ false
    → put_cell (some k) b s (body_of j) ≡ s (body_of j)
put_other k j b s e = rw e

keyed : IsKeyed env client box
unfolding message_of
keyed = record {
  latest = record {
    latest = λ k b s i h p. (
      message_of (stored b),
      [],
      ap (λ r. look env client box k r.1) (post-cell k b s)
          ∙ look-cell k (put_cell (some k) b s)
          ∙ ap read_cell (put_same k b s)
          ∙ stored_cell b h,
      refl,
    );
  };
  others = λ k j b s u v ne.
      ap (λ r. look env client box j r.1) (post-cell k b s)
      ∙ look-cell j (put_cell (some k) b s)
      ∙ ap read_cell (put_other k j b s (bodies_differ k j u v ne))
      ∙ sym (look-cell j s);
  read_only = λ k j s. ap (look env client box j) (query-quiet k s);
  accepts = λ k b s. (int (pos 7), ap (λ r. r.0) (post-cell k b s));
}

-- A task with one of two ids, done or not.
pub record Ticket : Type 0 where
  pub second : Bool
  pub done : Bool

abbrev mark : Bool → ℕ
mark b = if b then b'y' else b'n'

abbrev print : Ticket → Bytes
print t = mark t.second ∷ mark t.done ∷ []

abbrev parse : Payload → Result Ticket
parse (decoded (x ∷ y ∷ [])) = ok (record { second = x == b'y'; done = y == b'y' })
parse _ = raise (value_error [])

abbrev tickets : Sdk
tickets = record sdk {
  Task = Ticket;
  id_of = λ t. mark t.second ∷ [];
  empty_task = record { second = false; done = false };
  with_state = λ st t. t;
  task_json = λ t. ok (print t);
  parse_task = parse;
  tasks_json = λ ts. ok [];
  parse_tasks = λ p. ok [];
}

mark-IsByte : (b : Bool) → IsByte (mark b)
mark-IsByte true = omega arith
mark-IsByte false = omega arith

mark-IsScalar : (b : Bool) → IsScalar (mark b)
mark-IsScalar true = (omega arith, refl)
mark-IsScalar false = (omega arith, refl)

mark-read : (b : Bool) → (mark b == b'y') ≡ b
mark-read true = refl
mark-read false = refl

prints : Prints tickets
prints = record {
  printed = print;
  prints = λ t. refl;
  bytes = λ t. (mark-IsByte t.second, (mark-IsByte t.done, tt));
  unicode = λ t. (mark-IsScalar t.second, tt);
  reads = λ t.
      ap (λ p. ok (record { second = p.0; done = p.1 }))
        (both (mark-read t.second) (mark-read t.done));
}
  where
    both : {a b c d : Bool} → a ≡ b → c ≡ d → ◌≡◌ {A = Bool × Bool} (a, c) (b, d)
    both p q i = (p i, q i)

abbrev ticket_store : TaskStore Cells
ticket_store = mark_ready (new_store client box)

abbrev empty : Cells
empty q = none

empty-ReadsAs :
    (i : Text) → IsUnicode i → (mq.A2a.TaskStore.get tickets env ticket_store i empty).0 ≡ ok none
unfolding mq.A2a.TaskStore.first_task
empty-ReadsAs i u =
    get-answer tickets env ticket_store refl i empty
    ∙ ap (answer tickets env ticket_store refl) (look-cell (key_prefix ++ i) empty)

-- Two states of one task, and a read of it, of another one and of it again.
abbrev calls : List (Call tickets)
calls =
    saves (record { second = false; done = false })
    ∷ gets (b'n' ∷ [])
    ∷ saves (record { second = false; done = true })
    ∷ gets (b'y' ∷ [])
    ∷ gets (b'n' ∷ [])
    ∷ []

run_refines_example :
    (run tickets env ticket_store calls empty).0
    ≡ ok (some (record { second = false; done = false }))
      ∷ ok none
      ∷ ok (some (record { second = false; done = true }))
      ∷ []
unfolding replay text_eq
run_refines_example =
    (run_refines tickets env ticket_store refl keyed prints calls empty (λ i. none)
      (
        tt,
        (
          (mark-IsScalar false, tt),
          (tt, ((mark-IsScalar true, tt), ((mark-IsScalar false, tt), tt))),
        ),
      )
      empty-ReadsAs).0
