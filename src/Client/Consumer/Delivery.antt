-- ===== src/Client/Consumer/Delivery.antt =====
-- The messages that wait for a consumer group, and what a batch of them is to do: the broker's
-- promises of protocol.md on FETCH and ACK with a group.
pub mod Batch
pub mod Round
pub mod Drain
pub mod Loss
use mq.Base.{
  ℕ, suc, ◌+◌, Text, Bytes, codes, pos, Bool, true, false, Option, some, List, [], ◌∷◌, ◌++◌, take,
  All, ◌≡◌, ◌≢◌, if◌then◌else◌,
}
use mq.Py.Exceptions.{Exn, ok, raise, is_exception}
use mq.Py.Json.{Json, str, obj, Fields, get}
use mq.Py.Async.{Async}
use mq.Client.Types.{Nats, Env, Message}
use mq.Client.Subjects.{subject_msg_fetch, subject_msg_ack}
use mq.Client.Messaging.{fetch_body, ack_body}
use mq.Client.Consumer.{ConsumeOptions, fetch_options, on_error}
use mq.Client.Codec.RoundTrip.{Stored, wire_reply, message_of}

-- No two messages have the same id.
abbrev pub IsUnique : List Stored → Type 0
IsUnique [] = Unit
IsUnique (m ∷ ms) = All (λ (m' : Stored). m.id ≢ m'.id) ms × IsUnique ms

module _ (fails : Stored → Bool) where
  -- The messages of a batch, and some failed ones before it, that no acknowledgement covers: those
  -- after the last message whose handler has returned.
  abbrev pub left_over : List Stored → List Stored → List Stored
  left_over failed [] = failed
  left_over failed (m ∷ ms) =
      let more = left_over (failed ++ m ∷ []) ms in
      let fresh = left_over [] ms in if fails m then more else fresh

  -- The messages that do not fail.
  abbrev pub succeeded : List Stored → List Stored
  succeeded [] = []
  succeeded (m ∷ ms) = let rest = succeeded ms in if fails m then rest else m ∷ rest

module _ {S : Type 0} (env : Env S) (nc : Nats S) (o : ConsumeOptions) (group : Text) (n : ℕ)
    (waiting : S → List Stored) (handled : S → List Message) where
  -- The broker's part. `waiting` are the messages behind the offset of the group, in the order in
  -- which the broker hands them out; `handled` those that a handler has returned from.
  pub record Queues : Type 0 where
    -- FETCH returns the first messages, as many as are asked for, and moves nothing.
    pub asked : o.num_msgs ≡ pos n
    pub fetched :
        (b : Bytes) (ms : ℕ) (s : S)
        → env.loads b ≡ ok (obj (fetch_body (fetch_options o)))
        → (reply : Bytes) × ((nc.request (subject_msg_fetch o.mail_address) b ms s).0 ≡ ok reply)
          × (env.loads reply ≡ ok (obj (wire_reply (take n (waiting s)))))
    pub fetch_quiet :
        (b : Bytes) (ms : ℕ) (s : S)
        → (waiting (nc.request (subject_msg_fetch o.mail_address) b ms s).1 ≡ waiting s)
          × (handled (nc.request (subject_msg_fetch o.mail_address) b ms s).1 ≡ handled s)
    -- ACK moves the offset behind the message.
    pub acked :
        (b : Bytes) (ms : ℕ) (s : S) (before : List Stored) (m : Stored) (rest : List Stored)
        → env.loads b ≡ ok (obj (ack_body o.mail_address group m.id))
        → waiting s ≡ before ++ m ∷ rest
        → All (λ (m' : Stored). m'.id ≢ m.id) before
        → (reply : Bytes) × (d : Fields) × ((nc.request (subject_msg_ack o.mail_address) b ms s).0
            ≡ ok reply)
          × (env.loads reply ≡ ok (obj d))
          × (get (codes "error") d ≡ some (str []))
          × (waiting (nc.request (subject_msg_ack o.mail_address) b ms s).1 ≡ rest)
    pub ack_quiet :
        (b : Bytes) (ms : ℕ) (s : S)
        → handled (nc.request (subject_msg_ack o.mail_address) b ms s).1 ≡ handled s

  -- The handler raises for the messages that `fails` picks, and returns for the others; neither it
  -- nor the error handler moves the offset.
  pub record Delivers (handler : Message → Async S (Unit {0}))
      (error_handler : Option (Message → Exn → Async S (Unit {0}))) (fails : Stored → Bool)
      : Type 0 where
    pub broker : Queues
    pub returns : (m : Stored) (s : S) → fails m ≡ false → (handler (message_of m) s).0 ≡ ok tt
    pub raises :
        (m : Stored) (s : S)
        → fails m ≡ true
        → (e : Exn) × ((handler (message_of m) s).0 ≡ raise e) × (is_exception e ≡ true)
    pub handler_quiet : (m : Stored) (s : S) → waiting (handler (message_of m) s).1 ≡ waiting s
    pub handler_returned :
        (m : Stored) (s : S)
        → fails m ≡ false
        → handled (handler (message_of m) s).1 ≡ handled s ++ message_of m ∷ []
    pub handler_raised :
        (m : Stored) (s : S) → fails m ≡ true → handled (handler (message_of m) s).1 ≡ handled s
    pub recovers : (msg : Message) (e : Exn) (s : S) → (on_error error_handler msg e s).0 ≡ ok tt
    pub recovery_quiet :
        (msg : Message) (e : Exn) (s : S)
        → (waiting (on_error error_handler msg e s).1 ≡ waiting s)
          × (handled (on_error error_handler msg e s).1 ≡ handled s)
