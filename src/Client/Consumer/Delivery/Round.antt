-- ===== src/Client/Consumer/Delivery/Round.antt =====
-- What one round of a consumer does to the messages that wait for its group.
use mq.Base.{
  length, length-append, ℕ, ◌+◌, Text, Bool, Bool-cases, inl, inr, true, false, Option, some, List,
  [], ◌∷◌, ◌++◌, map, append_assoc, append-nil, take, drop, take-drop, All, All-take, ◌≡◌, ◌≢◌,
  refl, sym, ap, subst, ◌∙◌, arith,
}
use mathlib.Core.List.{map-append}
use mq.Py.Exceptions.{Exn, Result, ok}
use mq.Py.Json.{obj}
use mq.Py.Async.{Async}
use mq.Py.Dumps.{dumps}
use mq.Py.Dumps.Ascii.{utf8_encode-dumps}
use mq.Py.Loads.Readable.{IsReadable}
use mq.Client.Types.{Nats, Env, Mq9Client, Message}
use mq.Client.Codec.{encode, decode_response}
use mq.Client.Codec.RoundTrip.{
  Stored, HasBytes, message_of, messages_of-wire_reply, check_response-wire_reply,
}
use mq.Client.Connection.{request}
use mq.Client.Messaging.{fetch, fetch_body}
use mq.Client.Bodies.{fetch_body-HasReadable, OptionalText}
use mq.Client.Consumer.{
  Running, ConsumeOptions, fetch_options, poll, handle_message, handle_messages, round,
}
use mq.Client.Consumer.Delivery.{IsUnique, left_over, succeeded, Delivers}
use mq.Client.Consumer.Delivery.Batch.{Acknowledges, After, step-returns, step-raises}

IsUnique-before :
    (before : List Stored) (m : Stored) (rest : List Stored)
    → IsUnique (before ++ m ∷ rest)
    → All (λ (m' : Stored). m'.id ≢ m.id) before
IsUnique-before [] m rest h = tt
IsUnique-before (m' ∷ before) m rest h = (middle before h.0, IsUnique-before before m rest h.1)
  where
    middle : (ms : List Stored) → All (λ (x : Stored). m'.id ≢ x.id) (ms ++ m ∷ rest) → m'.id ≢ m.id
    middle [] k = k.0
    middle (x ∷ ms) k = middle ms k.1

pub IsUnique-after : (before ms : List Stored) → IsUnique (before ++ ms) → IsUnique ms
IsUnique-after [] ms h = h
IsUnique-after (m ∷ before) ms h = IsUnique-after before ms h.1

-- The messages whose ids can be sent back and whose payloads are bytes.
abbrev pub IsSound : Stored → Type 0
IsSound m = IsReadable m.id × HasBytes m

All-sound-bytes : (ms : List Stored) → All IsSound ms → All HasBytes ms
All-sound-bytes [] h = tt
All-sound-bytes (m ∷ ms) h = (h.0.1, All-sound-bytes ms h.1)

module _ {S : Type 0} (env : Env S) (c : Mq9Client S) (nc : Nats S) (connected : c.nc ≡ some nc)
    (o : ConsumeOptions) (group : Text) (handler : Message → Async S (Unit {0}))
    (error_handler : Option (Message → Exn → Async S (Unit {0})))
    (how : Acknowledges env c nc connected o group handler error_handler) (n : ℕ)
    (waiting : S → List Stored) (handled : S → List Message) (fails : Stored → Bool)
    (delivers : Delivers env nc o group n waiting handled handler error_handler fails) where
  abbrev Ends : Running S → List Stored → List Stored → Result (Unit {0}) × Running S → Type 0
  Ends = After env c nc connected o group handler error_handler how n waiting handled fails delivers

  abbrev batch : List Stored → Async (Running S) (Unit {0})
  batch ms = handle_messages env c o handler error_handler (map message_of ms)

  abbrev one : Stored → Async (Running S) (Unit {0})
  one m = handle_message env c o handler error_handler (message_of m)

  succeeded-cons :
      (m : Stored) (ms : List Stored)
      → succeeded fails (m ∷ []) ++ succeeded fails ms ≡ succeeded fails (m ∷ ms)
  succeeded-cons m ms = elim (Bool-cases (fails m)) [ inl f ↦ rw f refl | inr f ↦ rw f refl ]

  succeeded-length :
      (m : Stored) (ms : List Stored)
      → length (succeeded fails (m ∷ [])) + length (succeeded fails ms)
        ≡ length (succeeded fails (m ∷ ms))
  succeeded-length m ms =
      sym (length-append (succeeded fails (m ∷ [])) (succeeded fails ms))
      ∙ ap length (succeeded-cons m ms)

  Ends-join :
      (m : Stored) (ms left left' : List Stored) (s : Running S)
      → Ends s (m ∷ []) left (one m s)
      → Ends (one m s).1 ms left' (batch ms (one m s).1)
      → Ends s (m ∷ ms) left' (batch (m ∷ ms) s)
  unfolding handle_messages
  Ends-join m ms left left' s (done, moved, called, counted) (done', moved', called', counted') =
      rw done (
        done',
        moved',
        called'
            ∙ ap (λ l. l ++ map message_of (succeeded fails ms)) called
            ∙ append_assoc (handled s.net) _ _
            ∙ ap (λ l. handled s.net ++ l)
                (sym (map-append message_of (succeeded fails (m ∷ [])) (succeeded fails ms))
                  ∙ ap (map message_of) (succeeded-cons m ms)),
        counted'
            ∙ ap (λ k. k + length (succeeded fails ms)) counted
            ∙ omega (arith, succeeded-length m ms),
      )

  -- A batch leaves waiting, before the messages behind it, the failed ones after its last success.
  batch-Ends :
      (ms before rest : List Stored) (s : Running S)
      → waiting s.net ≡ before ++ (ms ++ rest)
      → IsUnique (before ++ (ms ++ rest))
      → All IsSound ms
      → Ends s ms (left_over fails before ms ++ rest) (batch ms s)
  unfolding handle_messages
  batch-Ends [] before rest s e u h = (refl, e, sym (append-nil _), omega arith)
  batch-Ends (m ∷ ms) before rest s e u h = elim (Bool-cases (fails m)) [
    | inl f ↦
        Ends-join m ms (before ++ m ∷ (ms ++ rest)) (left_over fails before (m ∷ ms) ++ rest) s
          (raised f)
          (rw f (
            batch-Ends ms (before ++ m ∷ []) rest (one m s).1
              ((raised f).1 ∙ sym (append_assoc before (m ∷ []) (ms ++ rest)))
              (subst IsUnique (sym (append_assoc before (m ∷ []) (ms ++ rest))) u) h.1))
    | inr f ↦ Ends-join m ms (ms ++ rest) (left_over fails before (m ∷ ms) ++ rest) s (returned f) (
        rw f (
          batch-Ends ms [] rest (one m s).1 (returned f).1
            (IsUnique-after before (m ∷ (ms ++ rest)) u).1 h.1))
  ]
    where
      raised : fails m ≡ true → Ends s (m ∷ []) (before ++ m ∷ (ms ++ rest)) (one m s)
      raised f =
          step-raises env c nc connected o group handler error_handler how n waiting handled fails
            delivers s m _ f e

      returned : fails m ≡ false → Ends s (m ∷ []) (ms ++ rest) (one m s)
      returned f =
          step-returns env c nc connected o group handler error_handler how n waiting handled fails
            delivers s before m (ms ++ rest) f h.0.0 e (IsUnique-before before m (ms ++ rest) u)

  -- A poll returns the first messages that wait, and moves nothing.
  poll-waiting :
      (s : S)
      → All IsSound (waiting s)
      → ((poll env c o s).0 ≡ ok (map message_of (take n (waiting s))))
        × (waiting (poll env c o s).1 ≡ waiting s)
        × (handled (poll env c o s).1 ≡ handled s)
  unfolding poll fetch request encode decode_response
  poll-waiting s h =
      let body = obj (fetch_body (fetch_options o)) in
      let grouped : OptionalText o.group_name =
        subst OptionalText (sym how.grouped) how.group_text in
      let (reply, p, read) = delivers.broker.fetched (dumps body) c.request_timeout s (
        how.reader.reads body
          (fetch_body-HasReadable (fetch_options o) (grouped, how.deliver_text))) in
      let quiet = delivers.broker.fetch_quiet (dumps body) c.request_timeout s in
      let sound = All-sound-bytes _ (All-take IsSound n (waiting s) h) in
      rw
        (
          utf8_encode-dumps body,
          connected,
          p,
          read,
          check_response-wire_reply,
          messages_of-wire_reply (take n (waiting s)) sound,
        )
        (refl, quiet.0, quiet.1)

  -- One round takes the first messages that wait, hands each to the handler once, and leaves
  -- waiting the failed ones after the last success and the messages behind the batch.
  pub round-Ends :
      (s : Running S)
      → IsUnique (waiting s.net)
      → All IsSound (waiting s.net)
      → Ends s
          (take n (waiting s.net))
          (left_over fails [] (take n (waiting s.net)) ++ drop n (waiting s.net))
          (round env c o handler error_handler s)
  unfolding round
  round-Ends s u h =
      let (p, still, same) = poll-waiting s.net h in
      let v : Running S = record s { net = (poll env c o s.net).1 } in
      let whole = sym (take-drop n (waiting s.net)) in
      let (done, moved, called, counted) =
        batch-Ends (take n (waiting s.net)) [] (drop n (waiting s.net)) v (still ∙ whole)
          (subst IsUnique whole u) (All-take IsSound n (waiting s.net) h) in
      rw p (
        done,
        moved,
        called ∙ ap (λ l. l ++ map message_of (succeeded fails (take n (waiting s.net)))) same,
        counted,
      )
