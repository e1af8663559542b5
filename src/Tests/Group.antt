-- ===== src/Tests/Group.antt =====
-- A broker with the messages that wait for one consumer group, and a consumer of it.
use mq.Base.{
  ℕ, Bytes, codes, text_eq, pos, ◌==◌, ◌||◌, Bool, true, false, Option, none, some, List, [], ◌∷◌,
  ◌++◌, map, take, All-take, All, ◌≡◌, ◌≢◌, refl, ap, sym, subst, ◌∙◌, arith, if◌then◌else◌,
}
use mq.Py.Exceptions.{Result, ok, raise, value_error, is_exception}
use mq.Py.Async.{Async}
use mq.Py.Json.{Json, int, str, obj, Fields, end, field, get}
use mq.Py.Dumps.{dumps}
use mq.Py.Loads.{loads}
use mq.Py.Loads.RoundTrip.{loads-dumps, loads-Reads}
use mq.Client.Types.{normal, Message, Nats, Env, Mq9Client}
use mq.Client.Subjects.{subject_msg_ack}
use mq.Client.Connection.{new_client}
use mq.Client.Messaging.{ack_body}
use mq.Client.Codec.RoundTrip.{Stored, wire_reply, message_of}
use mq.Client.Bodies.{is_scalar_text, literal, one-HasReadable}
use mq.Client.Consumer.{ConsumeOptions, default_consume}
use mq.Client.Consumer.Delivery.{Delivers, Queues}
use mq.Client.Consumer.Delivery.Batch.{Acknowledges}
use mq.Client.Mailbox.Replies.{wire_reply-IsReadable, HasReadableId}

abbrev pub store : ℕ → Stored
store k = record { id = int (pos k); bytes = codes "x"; priority = normal; created = int (pos 1) }

-- The ids that wait, and what the handler has returned from.
pub record Group : Type 0 where
  pub ids : List ℕ
  pub handled : List Message

abbrev pub waiting : Group → List Stored
waiting s = map store s.ids

abbrev pub number : Json → ℕ
number (int (pos k)) = k
number _ = 0

abbrev number_of : Option Json → ℕ
number_of none = 0
number_of (some v) = number v

abbrev acked_id : Result Json → ℕ
acked_id (ok (obj d)) = number_of (get (codes "msg_id") d)
acked_id _ = 0

-- The ids behind one of them.
abbrev behind : ℕ → List ℕ → List ℕ
behind k [] = []
behind k (j ∷ ids) = let rest = behind k ids in if j == k then ids else rest

abbrev fine : Fields
fine = field (codes "error") (str []) end

abbrev answer : Bool → Group → Bytes
answer true s = dumps (obj fine)
answer false s = dumps (obj (wire_reply (take 2 (waiting s))))

abbrev pub nats : Nats Group
nats = record {
  request = λ t b ms s. (
    ok (answer (text_eq t (subject_msg_ack (codes "box"))) s),
    if text_eq t (subject_msg_ack (codes "box"))
        then record s { ids = behind (acked_id (loads b)) s.ids }
        else s,
  );
  new_inbox = λ s. (ok (codes "inbox"), s);
  subscribe = λ t s. (ok 1, s);
  publish = λ t b r h s. (ok tt, s);
  deliveries = λ k ms s. (ok [], s);
  unsubscribe = λ k s. (ok tt, s);
  is_closed = λ s. (ok false, s);
  drain = λ s. (ok tt, s);
}

abbrev pub env : Env Group
env = record {
  connect = λ server attempts delay s. (ok nats, s);
  loads = loads;
  sleep = λ ms s. (ok tt, s);
  format = λ v. [];
}

abbrev pub client : Mq9Client Group
client = record (new_client (codes "nats://localhost:4222") 5000) { nc = some nats }

abbrev pub options : ConsumeOptions
options = record (default_consume (codes "box")) { group_name = some (codes "g"); num_msgs = pos 2 }

abbrev fails_for : ℕ → Bool
fails_for k = k == 2 || k == 5

-- The handler raises for the ids 2 and 5.
abbrev pub handler : Message → Async Group (Unit {0})
handler msg s = (
  if fails_for (number msg.msg_id) then raise (value_error []) else ok tt,
  if fails_for (number msg.msg_id) then s else record s { handled = s.handled ++ msg ∷ [] },
)

abbrev pub fails : Stored → Bool
fails m = fails_for (number m.id)

abbrev head_number : List Stored → ℕ
head_number [] = 0
head_number (m ∷ ms) = number m.id

abbrev tail : List Stored → List Stored
tail [] = []
tail (m ∷ ms) = ms

abbrev head_id : List Stored → Json
head_id [] = int (pos 0)
head_id (m ∷ ms) = m.id

behind-store :
    (ids : List ℕ) (before : List Stored) (k : ℕ) (rest : List Stored)
    → map store ids ≡ before ++ store k ∷ rest
    → All (λ (m : Stored). m.id ≢ int (pos k)) before
    → map store (behind k ids) ≡ rest
behind-store [] [] k rest e h = absurd (cc e)
behind-store [] (x ∷ before) k rest e h = absurd (cc e)
behind-store (j ∷ ids) [] k rest e h =
    let p : j ≡ k = ap head_number e in
    let q : map store ids ≡ rest = ap tail e in ground (arith, p, q)
behind-store (j ∷ ids) (x ∷ before) k rest e h =
    let p : int (pos j) ≡ x.id = ap head_id e in
    let new : j ≢ k = λ q. h.0 (sym p ∙ ap (λ i. int (pos i)) q) in
    let q = behind-store ids before k rest (ap tail e) h.1 in ground (arith, new, q)

abbrev head_of : Stored → List Stored → Stored
head_of d [] = d
head_of d (m ∷ ms) = m

member :
    (ids : List ℕ) (before : List Stored) (m : Stored) (rest : List Stored)
    → map store ids ≡ before ++ m ∷ rest
    → (k : ℕ) × (m ≡ store k)
member [] [] m rest e = absurd (cc e)
member [] (x ∷ before) m rest e = absurd (cc e)
member (j ∷ ids) [] m rest e = (j, sym (ap (head_of m) e))
member (j ∷ ids) (x ∷ before) m rest e = member ids before m rest (ap tail e)

ids-HasReadableId : (ids : List ℕ) → All HasReadableId (map store ids)
ids-HasReadableId [] = tt
ids-HasReadableId (k ∷ ids) = ((tt, tt), ids-HasReadableId ids)

fine-read : loads (dumps (obj fine)) ≡ ok (obj fine)
unfolding is_scalar_text
fine-read = loads-dumps (obj fine) (one-HasReadable (codes "error") (str []) refl tt)

acked_body : (i : Json) → acked_id (ok (obj (ack_body (codes "box") (codes "g") i))) ≡ number i
unfolding ack_body get text_eq
acked_body i = refl

still :
    (b : Bool) (m : Stored) (s : Group)
    → waiting (if b then s else record s { handled = s.handled ++ message_of m ∷ [] }) ≡ waiting s
still true m s = refl
still false m s = refl

pub queues :
    (handled : Group → List Message)
    → ((s : Group) (ids : List ℕ) → handled (record s { ids = ids }) ≡ handled s)
    → Queues env nats options (codes "g") 2 waiting handled
unfolding text_eq get
queues handled quiet = record {
  asked = refl;
  fetched = λ b ms s reads. (
    dumps (obj (wire_reply (take 2 (waiting s)))),
    refl,
    loads-dumps _
        (wire_reply-IsReadable _ (All-take HasReadableId 2 (waiting s) (ids-HasReadableId s.ids))),
  );
  fetch_quiet = λ b ms s. (refl, refl);
  acked = λ b ms s before m rest reads e new.
      let (k, same) = member s.ids before m rest e in
      (
        dumps (obj fine),
        fine,
        refl,
        fine-read,
        refl,
        ap (λ j. map store (behind j s.ids))
              (ap acked_id reads ∙ acked_body m.id ∙ ap (λ (x : Stored). number x.id) same)
            ∙ behind-store s.ids before k rest (e ∙ ap (λ x. before ++ x ∷ rest) same)
                (subst (λ (x : Stored). All (λ (m' : Stored). m'.id ≢ x.id) before) same new),
      );
  ack_quiet = λ b ms s. quiet s (behind (acked_id (loads b)) s.ids);
}

pub delivers : Delivers env nats options (codes "g") 2 waiting (λ s. s.handled) handler none fails
unfolding text_eq message_of is_exception get
delivers = record {
  broker = queues (λ s. s.handled) (λ s ids. refl);
  returns = λ m s f. rw f refl;
  raises = λ m s f. (value_error [], rw f refl, refl);
  handler_quiet = λ m s. still (fails m) m s;
  handler_returned = λ m s f. rw f refl;
  handler_raised = λ m s f. rw f refl;
  recovers = λ msg e s. refl;
  recovery_quiet = λ msg e s. (refl, refl);
}

pub acknowledges :
    (h : Message → Async Group (Unit {0}))
    → Acknowledges env client nats refl options (codes "g") h none
unfolding is_scalar_text
acknowledges h = record {
  acks = refl;
  grouped = refl;
  address_text = literal (codes "box") refl;
  group_text = literal (codes "g") refl;
  deliver_text = literal (codes "latest") refl;
  reader = loads-Reads;
}
