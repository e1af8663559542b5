-- ===== src/Client/Mailbox.antt =====
-- A mailbox as protocol.md promises it to its clients: messages without a key, a delay or a time to
-- live, and FETCH without a group from the oldest message on.
pub mod Sending
pub mod Replies
pub mod Order
use mq.Base.{
  ℕ, Text, Bytes, codes, pos, Bool, true, false, Option, none, some, List, [], ◌∷◌, ◌++◌, take, All,
  ◌≡◌, if◌then◌else◌,
}
use mq.Py.Exceptions.{Result, ok}
use mq.Py.Json.{Json, str, obj, Fields, get}
use mq.Py.Async.{Async, pure, ◌>>=◌}
use mq.Py.Dict.{Headers}
use mq.Client.Types.{Priority, normal, urgent, critical, Body, Nats, Env, Mq9Client}
use mq.Client.Subjects.{subject_msg_send, subject_msg_fetch}
use mq.Client.Headers.{Options}
use mq.Client.Headers.Decode.{decode, HasPlainTags}
use mq.Client.Messaging.{send, fetch_body, FetchOptions}
use mq.Client.Codec.{encode}
use mq.Py.Base64.RoundTrip.{IsByte}
use mq.Client.Codec.RoundTrip.{Stored, wire_reply}

abbrev same : Priority → Priority → Bool
same normal normal = true
same urgent urgent = true
same critical critical = true
same p q = false

-- The order in which messages are handed out: first the critical ones, then the urgent ones, then
-- the others, and the oldest first among those of one priority.
module _ {A : Type 0} (rank : A → Priority) where
  unfoldable pub of_priority : Priority → List A → List A
  of_priority p [] = []
  of_priority p (x ∷ xs) = let rest = of_priority p xs in if same p (rank x) then x ∷ rest else rest

  unfoldable pub ranked : List A → List A
  ranked xs = of_priority critical xs ++ (of_priority urgent xs ++ of_priority normal xs)

module _ {S : Type 0} (env : Env S) (box : S → List Stored) where
  -- A reply that accepts a message.
  abbrev pub Accepts : Bytes → Type 0
  Accepts reply =
      (d : Fields) × (i : Json) × (env.loads reply ≡ ok (obj d))
      × (get (codes "error") d ≡ some (str []))
      × (get (codes "msg_id") d ≡ some i)

  -- The mailbox has one more message, with these bytes and this priority.
  abbrev pub Adds : Bytes → Priority → S → S → Type 0
  Adds b p s s' = (m : Stored) × (m.bytes ≡ b) × (m.priority ≡ p) × (box s' ≡ box s ++ m ∷ [])

  -- FETCH without a group, from the oldest message on, of at most `n` messages.
  abbrev pub FromOldest : FetchOptions → ℕ → Type 0
  FromOldest o n = (o.group_name ≡ none) × (o.deliver ≡ codes "earliest") × (o.num_msgs ≡ pos n)

  -- The broker keeps the messages of one mailbox, `box`, and answers as documented. A subscription
  -- hears what is sent to its inbox, and a message that is published with an inbox to reply to is
  -- answered there.
  pub record Serves (nc : Nats S) (address : Text) (Hears : S → ℕ → Text → Type 0)
      (Answered : S → ℕ → Type 0) : Type 0 where
    pub inbox : (s : S) → (i : Text) × ((nc.new_inbox s).0 ≡ ok i)
    pub inbox_quiet : (s : S) → box (nc.new_inbox s).1 ≡ box s
    pub subscribed :
        (i : Text) (s : S)
        → (k : ℕ) × ((nc.subscribe i s).0 ≡ ok k) × Hears (nc.subscribe i s).1 k i
    pub subscribe_quiet : (i : Text) (s : S) → box (nc.subscribe i s).1 ≡ box s
    pub published :
        (b : Bytes) (i : Text) (h : Headers) (s : S)
        → (decode h).key ≡ none
        → (decode h).delay ≡ none
        → (decode h).ttl ≡ none
        → ((nc.publish (subject_msg_send address) b i h s).0 ≡ ok tt)
          × Adds b (decode h).priority s (nc.publish (subject_msg_send address) b i h s).1
    pub answered :
        (b : Bytes) (i : Text) (h : Headers) (k : ℕ) (s : S)
        → Hears s k i
        → Answered (nc.publish (subject_msg_send address) b i h s).1 k
    pub delivered :
        (k ms : ℕ) (s : S)
        → Answered s k
        → (reply : Bytes) × (more : List Bytes) × ((nc.deliveries k ms s).0 ≡ ok (reply ∷ more))
          × Accepts reply
    pub wait_quiet : (k ms : ℕ) (s : S) → box (nc.deliveries k ms s).1 ≡ box s
    pub unsubscribed : (k : ℕ) (s : S) → (nc.unsubscribe k s).0 ≡ ok tt
    pub unsubscribe_quiet : (k : ℕ) (s : S) → box (nc.unsubscribe k s).1 ≡ box s
    pub sent :
        (b : Bytes) (ms : ℕ) (s : S)
        → (reply : Bytes) × ((nc.request (subject_msg_send address) b ms s).0 ≡ ok reply)
          × Accepts reply
          × Adds b normal s (nc.request (subject_msg_send address) b ms s).1
    pub fetched :
        (b : Bytes) (o : FetchOptions) (n ms : ℕ) (s : S)
        → env.loads b ≡ ok (obj (fetch_body o))
        → FromOldest o n
        → (reply : Bytes) × ((nc.request (subject_msg_fetch address) b ms s).0 ≡ ok reply)
          × (env.loads reply
              ≡ ok (obj (wire_reply (take n (ranked (λ (m : Stored). m.priority) (box s))))))

-- A message to send: its body, the bytes of the body, and the other arguments.
pub record Outgoing : Type 0 where
  pub body : Body
  pub bytes : Bytes
  pub options : Options

-- The messages are sent one after the other.
unfoldable pub send_all :
    {S : Type 0} → Env S → Mq9Client S → Text → List Outgoing → Async S (Unit {0})
send_all env c address [] = pure tt
send_all env c address (m ∷ ms) = do
  _ ← send env c address m.body m.options
  send_all env c address ms

-- A message without a key, a delay or a time to live, whose tags can be told apart.
abbrev pub IsPlain : Options → Type 0
IsPlain o = (o.key ≡ none) × (o.delay ≡ none) × (o.ttl ≡ none) × HasPlainTags o.tags

-- The bytes are those of the body, and the message is plain.
abbrev pub IsSendable : Outgoing → Type 0
IsSendable m = (encode m.body ≡ ok m.bytes) × All IsByte m.bytes × IsPlain m.options
