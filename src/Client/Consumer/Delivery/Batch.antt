-- ===== src/Client/Consumer/Delivery/Batch.antt =====
-- What one round of a consumer does to the messages that wait for its group.
use mq.Base.{
  length, append-nil, sym, ℕ, ◌+◌, Text, Bool, true, false, Option, some, List, [], ◌∷◌, ◌++◌, map,
  All, ◌≡◌, ◌≢◌, refl, ◌∙◌, arith,
}
use mq.Py.Exceptions.{Exn, Result, ok, raise, is_exception}
use mq.Py.Json.{obj, truthy}
use mq.Py.Async.{Async}
use mq.Py.Dumps.{dumps}
use mq.Py.Dumps.Ascii.{utf8_encode-dumps}
use mq.Py.Scan.RoundTrip.{IsScalar}
use mq.Py.Loads.Readable.{IsReadable}
use mq.Py.Loads.RoundTrip.{Reads}
use mq.Client.Types.{Nats, Env, Mq9Client, Message}
use mq.Client.Codec.{encode, decode_response, check_response}
use mq.Client.Codec.RoundTrip.{Stored, message_of}
use mq.Client.Connection.{request}
use mq.Client.Messaging.{ack, ack_body}
use mq.Client.Bodies.{ack_body-HasReadable}
use mq.Client.Consumer.{Running, ConsumeOptions, handle_and_ack, handle_message}
use mq.Client.Consumer.Counting.{step_processed, step_failed}
use mq.Client.Consumer.Delivery.{succeeded, Delivers}

module _ {S : Type 0} (env : Env S) (c : Mq9Client S) (nc : Nats S) (connected : c.nc ≡ some nc)
    (o : ConsumeOptions) (group : Text) (handler : Message → Async S (Unit {0}))
    (error_handler : Option (Message → Exn → Async S (Unit {0}))) where
  -- The consumer acknowledges for its group, and its texts can be sent.
  pub record Acknowledges : Type 0 where
    pub acks : o.auto_ack ≡ true
    pub grouped : o.group_name ≡ some group
    pub address_text : All IsScalar o.mail_address
    pub group_text : All IsScalar group
    pub deliver_text : All IsScalar o.deliver
    pub reader : Reads env.loads

  module _ (how : Acknowledges) (n : ℕ) (waiting : S → List Stored) (handled : S → List Message)
      (fails : Stored → Bool)
      (delivers : Delivers env nc o group n waiting handled handler error_handler fails) where
    -- What an acknowledgement does.
    ack-waiting :
        (s : S) (before : List Stored) (m : Stored) (rest : List Stored)
        → IsReadable m.id
        → waiting s ≡ before ++ m ∷ rest
        → All (λ (m' : Stored). m'.id ≢ m.id) before
        → ((ack env c o.mail_address group m.id s).0 ≡ ok tt)
          × (waiting (ack env c o.mail_address group m.id s).1 ≡ rest)
          × (handled (ack env c o.mail_address group m.id s).1 ≡ handled s)
    unfolding ack request encode decode_response check_response truthy
    ack-waiting s before m rest id e new =
        let body = obj (ack_body o.mail_address group m.id) in
        let (reply, d, p, read, fine, moved) =
          delivers.broker.acked (dumps body) c.request_timeout s before m rest
            (how.reader.reads body
              (ack_body-HasReadable o.mail_address group m.id how.address_text how.group_text id))
            e new in
        (
          rw (utf8_encode-dumps body, connected, p, read, fine) refl,
          rw (utf8_encode-dumps body, connected, p, read, fine) moved,
          rw (utf8_encode-dumps body, connected, p, read, fine)
              (delivers.broker.ack_quiet (dumps body) c.request_timeout s),
        )

    abbrev one : Message → Async S (Unit {0})
    one = handle_and_ack env c o handler error_handler

    -- A message whose handler returns is acknowledged, and with it the failed ones before it.
    one-returns :
        (s : S) (before : List Stored) (m : Stored) (rest : List Stored)
        → fails m ≡ false
        → IsReadable m.id
        → waiting s ≡ before ++ m ∷ rest
        → All (λ (m' : Stored). m'.id ≢ m.id) before
        → (u : S) × (one (message_of m) s ≡ (ok tt, u))
          × (waiting u ≡ rest)
          × (handled u ≡ handled s ++ message_of m ∷ [])
    unfolding handle_and_ack message_of
    one-returns s before m rest f id e new =
        let v = (handler (message_of m) s).1 in
        let (done, moved, quiet) =
          ack-waiting v before m rest id (delivers.handler_quiet m s ∙ e) new in
        (
          (ack env c o.mail_address group m.id v).1,
          rw (delivers.returns m s f, how.acks, how.grouped)
              (λ i. (done i, (ack env c o.mail_address group m.id v).1)),
          moved,
          quiet ∙ delivers.handler_returned m s f,
        )

    -- One whose handler raises goes to the error handler, and nothing is acknowledged.
    one-raises :
        (s : S) (m : Stored)
        → fails m ≡ true
        → (e : Exn) × (one (message_of m) s ≡ (raise e, (handler (message_of m) s).1))
          × (is_exception e ≡ true)
    unfolding handle_and_ack
    one-raises s m f = let (e, p, q) = delivers.raises m s f in (e, rw p refl, q)

    -- What handling `ms` ends with: nothing raised, these messages waiting, and the ones that did
    -- not fail handled once and counted.
    abbrev pub After :
        Running S → List Stored → List Stored → Result (Unit {0}) × Running S → Type 0
    After s ms left r =
        (r.0 ≡ ok tt)
        × (waiting r.1.net ≡ left)
        × (handled r.1.net ≡ handled s.net ++ map message_of (succeeded fails ms))
        × (r.1.consumer.processed_count ≡ s.consumer.processed_count + length (succeeded fails ms))

    abbrev step : Message → Async (Running S) (Unit {0})
    step = handle_message env c o handler error_handler

    pub step-returns :
        (s : Running S) (before : List Stored) (m : Stored) (rest : List Stored)
        → fails m ≡ false
        → IsReadable m.id
        → waiting s.net ≡ before ++ m ∷ rest
        → All (λ (m' : Stored). m'.id ≢ m.id) before
        → After s (m ∷ []) rest (step (message_of m) s)
    step-returns s before m rest f id e new =
        let (u, p, moved, called) = one-returns s.net before m rest f id e new in
        let q = step_processed env c o handler error_handler (message_of m) s p in
        rw (q, f) (refl, moved, called, refl)

    pub step-raises :
        (s : Running S) (m : Stored) (left : List Stored)
        → fails m ≡ true
        → waiting s.net ≡ left
        → After s (m ∷ []) left (step (message_of m) s)
    step-raises s m left f e =
        let (x, p, kind) = one-raises s.net m f in
        let q = step_failed env c o handler error_handler (message_of m) s x p kind in
        let u = (handler (message_of m) s.net).1 in
        let (still, same) = delivers.recovery_quiet (message_of m) x u in
        rw (q, f)
          (
            delivers.recovers (message_of m) x u,
            still ∙ delivers.handler_quiet m s.net ∙ e,
            same ∙ delivers.handler_raised m s.net f ∙ sym (append-nil _),
            omega arith,
          )
