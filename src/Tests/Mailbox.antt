-- ===== src/Tests/Mailbox.antt =====
-- A broker that keeps the messages of one mailbox and reads and writes JSON text, and a client's
-- run against it.
use mq.Base.{
  ℕ, ◌<◌, Text, Bytes, codes, text_eq, pos, false, Option, none, some, List, [], ◌∷◌, ◌++◌, map,
  take, All-take, All, ◌≡◌, refl, ap, ◌∙◌, arith, if◌then◌else◌,
}
use mathlib.Core.List.{map-append}
use mq.Py.Exceptions.{Result, ok}
use mq.Py.Async.{◌>>◌}
use mq.Py.Json.{Json, int, str, obj, Fields, end, field, get, get-set}
use mq.Py.Dumps.{dumps}
use mq.Py.Loads.{loads}
use mq.Py.Loads.RoundTrip.{loads-dumps, loads-Reads}
use mq.Client.Types.{
  Priority, normal, urgent, critical, decoded, of_str, Message, Nats, Env, Mq9Client,
}
use mq.Client.Subjects.{subject_msg_fetch}
use mq.Client.Connection.{new_client}
use mq.Client.Headers.{default_options}
use mq.Client.Headers.Decode.{decode}
use mq.Client.Messaging.{fetch, fetch_body, FetchOptions, default_fetch, set_optional}
use mq.Client.Codec.RoundTrip.{Stored, wire_reply}
use mq.Client.Bodies.{is_scalar_text, literal, two-HasReadable}
use mq.Client.Mailbox.{ranked, Serves, Accepts, FromOldest, Outgoing, IsSendable, send_all}
use mq.Client.Codec.{encode}
use mq.Py.Utf8.{utf8_encode, encode_char}
use mq.Client.Mailbox.Replies.{wire_reply-IsReadable, HasReadableId}
use mq.Client.Mailbox.Order.{shown, All-ranked, send_all-fetch}

abbrev address : Text
address = codes "box"

abbrev Box : Type 0
Box = List (Bytes × Priority)

abbrev store : Bytes × Priority → Stored
store m = record { id = int (pos 7); bytes = m.0; priority = m.1; created = int (pos 1) }

abbrev box : Box → List Stored
box s = map store s

abbrev accepted : Fields
accepted = field (codes "error") (str []) (field (codes "msg_id") (int (pos 7)) end)

-- The number of messages that a body of FETCH asks for.
abbrev in_config : Option Json → ℕ
in_config (some (obj (field k (int (pos n)) d))) = n
in_config _ = 0

abbrev asked : Result Json → ℕ
asked (ok (obj d)) = in_config (get (codes "config") d)
asked _ = 0

abbrev reply_to : ℕ → Box → Bytes
reply_to n s = dumps (obj (wire_reply (take n (ranked (λ (m : Stored). m.priority) (box s)))))

abbrev nats : Nats Box
nats = record {
  request = λ t b ms s.
      if text_eq t (subject_msg_fetch address)
      then (ok (reply_to (asked (loads b)) s), s)
      else (ok (dumps (obj accepted)), s ++ (b, normal) ∷ []);
  new_inbox = λ s. (ok (codes "inbox"), s);
  subscribe = λ t s. (ok 1, s);
  publish = λ t b r h s. (ok tt, s ++ (b, (decode h).priority) ∷ []);
  deliveries = λ k ms s. (ok (dumps (obj accepted) ∷ []), s);
  unsubscribe = λ k s. (ok tt, s);
  is_closed = λ s. (ok false, s);
  drain = λ s. (ok tt, s);
}

abbrev env : Env Box
env = record {
  connect = λ server attempts delay s. (ok nats, s);
  loads = loads;
  sleep = λ ms s. (ok tt, s);
  format = λ v. [];
}

abbrev client : Mq9Client Box
client = record (new_client (codes "nats://localhost:4222") 5000) { nc = some nats }

accepts : Accepts env box (dumps (obj accepted))
unfolding is_scalar_text text_eq get
accepts = (
  accepted,
  int (pos 7),
  loads-dumps (obj accepted) (
      two-HasReadable (codes "error") (codes "msg_id") (str []) (int (pos 7)) refl refl refl tt tt),
  refl,
  refl,
)

grows : (s : Box) (m : Bytes × Priority) → box (s ++ m ∷ []) ≡ box s ++ store m ∷ []
grows s m = map-append store s (m ∷ [])

get-set_optional :
    {A : Type 0} (j k : Text) (f : A → Json) (o : Option A) (d : Fields)
    → text_eq k j ≡ false
    → get j (set_optional k f o d) ≡ get j d
get-set_optional j k f none d e = refl
get-set_optional j k f (some a) d e = get-set k j (f a) d ∙ rw e refl

asked-fetch_body :
    (o : FetchOptions) (n : ℕ) → o.num_msgs ≡ pos n → asked (ok (obj (fetch_body o))) ≡ n
unfolding fetch_body text_eq get
asked-fetch_body o n e =
    ap in_config (
      get-set_optional (codes "config") (codes "from_id") int o.from_id _ refl
      ∙ get-set_optional (codes "config") (codes "from_time") int o.from_time _ refl
      ∙ get-set_optional (codes "config") (codes "group_name") str o.group_name _ refl)
    ∙ rw e refl

store-HasReadableId : (s : Box) → All HasReadableId (box s)
store-HasReadableId [] = tt
store-HasReadableId (m ∷ s) = ((tt, tt), store-HasReadableId s)

reply-read :
    (n : ℕ) (s : Box)
    → loads (reply_to n s)
      ≡ ok (obj (wire_reply (take n (ranked (λ (m : Stored). m.priority) (box s)))))
reply-read n s = loads-dumps _ (
    wire_reply-IsReadable _
      (All-take HasReadableId n _ (All-ranked _ HasReadableId (box s) (store-HasReadableId s))))

serves : Serves env box nats address (λ s k i. Unit) (λ s k. Unit)
unfolding text_eq
serves = record {
  inbox = λ s. (codes "inbox", refl);
  inbox_quiet = λ s. refl;
  subscribed = λ i s. (1, refl, tt);
  subscribe_quiet = λ i s. refl;
  published = λ b i h s key delay ttl.
      (refl, (store (b, (decode h).priority), refl, refl, grows s (b, (decode h).priority)));
  answered = λ b i h k s hears. tt;
  delivered = λ k ms s a. (dumps (obj accepted), [], refl, accepts);
  wait_quiet = λ k ms s. refl;
  unsubscribed = λ k s. refl;
  unsubscribe_quiet = λ k s. refl;
  sent = λ b ms s.
      (dumps (obj accepted), refl, accepts, (store (b, normal), refl, refl, grows s (b, normal)));
  fetched = λ b o n ms s reads oldest. (
    reply_to n s,
    ap (λ k. ok (reply_to k s)) (ap asked reads ∙ asked-fetch_body o n oldest.2),
    reply-read n s,
  );
}

abbrev outgoing : Priority → Text → Outgoing
outgoing p b = record {
  body = of_str b;
  bytes = b;
  options = record default_options { priority = p };
}

abbrev from_oldest : FetchOptions
from_oldest = record default_fetch { deliver = codes "earliest"; num_msgs = pos 3 }

plain : (p : Priority) (c : ℕ) → c < 128 → IsSendable (outgoing p (c ∷ []))
unfolding encode utf8_encode encode_char
plain p c h = (ground arith, (omega (arith, h), tt), (refl, refl, refl, tt))

-- Four messages of three priorities, of which three are fetched.
send_all-fetch_example :
    (ms : List Message) × (((send_all env client address (
            outgoing normal (codes "a")
            ∷ outgoing urgent (codes "b")
            ∷ outgoing critical (codes "c")
            ∷ outgoing urgent (codes "d")
            ∷ [])
          >> fetch env client address from_oldest)
        []).0
      ≡ ok ms)
    × (map shown ms
        ≡ (decoded (codes "c"), critical)
          ∷ (decoded (codes "b"), urgent)
          ∷ (decoded (codes "d"), urgent)
          ∷ [])
unfolding ranked mq.Client.Mailbox.of_priority encode utf8_encode encode_char is_scalar_text
send_all-fetch_example =
    send_all-fetch env box client nats refl address (λ s k i. Unit) (λ s k. Unit) serves
      (outgoing normal (codes "a")
        ∷ outgoing urgent (codes "b")
        ∷ outgoing critical (codes "c")
        ∷ outgoing urgent (codes "d")
        ∷ [])
      from_oldest 3 [] loads-Reads
      (
        plain normal b'a' (omega arith),
        (
          plain urgent b'b' (omega arith),
          (plain critical b'c' (omega arith), (plain urgent b'd' (omega arith), tt)),
        ),
      )
      (tt, literal (codes "earliest") refl) (refl, refl, refl) refl
