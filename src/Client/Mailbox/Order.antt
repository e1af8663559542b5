-- ===== src/Client/Mailbox/Order.antt =====
-- That a mailbox hands out by priority what a client has sent to it.
use mq.Base.{
  ℕ, Text, Bool-cases, inl, inr, some, List, [], ◌∷◌, ◌++◌, map, append_assoc, append-nil, take,
  map-take, All, All-append, All-take, ◌≡◌, refl, ap, sym, subst, ◌∙◌,
}
use mathlib.Core.List.{map-append}
use mq.Py.Exceptions.{ok}
use mq.Py.Json.{obj}
use mq.Py.Async.{◌>>◌}
use mq.Py.Base64.RoundTrip.{IsByte}
use mq.Py.Loads.RoundTrip.{Reads}
use mq.Py.Dumps.{dumps}
use mq.Py.Dumps.Ascii.{utf8_encode-dumps}
use mq.Client.Types.{
  Priority, normal, urgent, critical, Payload, decoded, Message, Nats, Env, Mq9Client,
}
use mq.Client.Codec.{encode, decode_response}
use mq.Client.Connection.{request}
use mq.Client.Messaging.{send, fetch, fetch_body, FetchOptions}
use mq.Client.Codec.RoundTrip.{
  Stored, HasBytes, message_of, messages_of-wire_reply, check_response-wire_reply,
}
use mq.Client.Bodies.{HasTexts, fetch_body-HasReadable}
use mq.Client.Mailbox.{of_priority, ranked, FromOldest, Serves, Outgoing, send_all, same}
use mq.Client.Mailbox.Sending.{send-Adds}
use mq.Client.Mailbox.{IsSendable}

module _ {A B : Type 0} (f : A → B) (rank : B → Priority) where
  map-of_priority :
      (p : Priority) (xs : List A)
      → map f (of_priority (λ x. rank (f x)) p xs) ≡ of_priority rank p (map f xs)
  unfolding of_priority
  map-of_priority p [] = refl
  map-of_priority p (x ∷ xs) = elim (Bool-cases (same p (rank (f x)))) [
    | inl e ↦ rw e (ap (λ ys. f x ∷ ys) (map-of_priority p xs))
    | inr e ↦ rw e (map-of_priority p xs)
  ]

  map-ranked : (xs : List A) → map f (ranked (λ x. rank (f x)) xs) ≡ ranked rank (map f xs)
  unfolding ranked
  map-ranked xs =
      rw (map-append, map-append, map-of_priority, map-of_priority, map-of_priority) refl

module _ {A : Type 0} (rank : A → Priority) (P : A → Type 0) where
  All-of_priority : (p : Priority) (xs : List A) → All P xs → All P (of_priority rank p xs)
  unfolding of_priority
  All-of_priority p [] h = tt
  All-of_priority p (x ∷ xs) h = elim (Bool-cases (same p (rank x))) [
    | inl e ↦ rw e (h.0, All-of_priority p xs h.1)
    | inr e ↦ rw e (All-of_priority p xs h.1)
  ]

  pub All-ranked : (xs : List A) → All P xs → All P (ranked rank xs)
  unfolding ranked
  All-ranked xs h =
      All-append P _ _ (All-of_priority critical xs h)
        (All-append P _ _ (All-of_priority urgent xs h) (All-of_priority normal xs h))

-- What a caller gets to see of a message, but for its id and time.
abbrev pub shown : Message → Payload × Priority
shown m = (m.payload, m.priority)

abbrev pub shown_of : Outgoing → Payload × Priority
shown_of m = (decoded m.bytes, m.options.priority)

abbrev shown_from : Stored → Payload × Priority
shown_from m = (decoded m.bytes, m.priority)

shown-messages : (ms : List Stored) → map shown (map message_of ms) ≡ map shown_from ms
unfolding message_of
shown-messages [] = refl
shown-messages (m ∷ ms) = ap (λ ys. shown_from m ∷ ys) (shown-messages ms)

module _ {S : Type 0} (env : Env S) (box : S → List Stored) (c : Mq9Client S) (nc : Nats S)
    (e : c.nc ≡ some nc) (address : Text) (Hears : S → ℕ → Text → Type 0)
    (Answered : S → ℕ → Type 0) (serves : Serves env box nc address Hears Answered) where
  -- The mailbox has these messages more.
  abbrev Filled : List Outgoing → S → S → Type 0
  Filled outs s s' =
      (ms : List Stored) × (box s' ≡ box s ++ ms)
      × All HasBytes ms
      × (map shown_from ms ≡ map shown_of outs)

  send_all-Filled :
      (outs : List Outgoing) (s : S)
      → All IsSendable outs
      → ((send_all env c address outs s).0 ≡ ok tt)
        × Filled outs s (send_all env c address outs s).1
  unfolding send_all
  send_all-Filled [] s h = (refl, ([], sym (append-nil _), tt, refl))
  send_all-Filled (m ∷ outs) s h =
      let (i, done, (st, bytes, priority, grown)) =
        send-Adds env box c nc e address Hears Answered serves m s h.0.0 h.0.2 in
      let (all_done, (ms, more, well, same)) =
        send_all-Filled outs (send env c address m.body m.options s).1 h.1 in
      (
        rw done all_done,
        (
          st ∷ ms,
          rw done (more ∙ ap (λ l. l ++ ms) grown ∙ append_assoc (box s) (st ∷ []) ms),
          (subst (All IsByte) (sym bytes) h.0.1, well),
          λ i. (decoded (bytes i), priority i) ∷ same i,
        ),
      )

  -- A fetch from the oldest message on returns the messages of the mailbox in their order.
  fetch-ranked :
      (o : FetchOptions) (n : ℕ) (s : S)
      → Reads env.loads
      → HasTexts o
      → FromOldest env box o n
      → All HasBytes (box s)
      → (fetch env c address o s).0
        ≡ ok (map message_of (take n (ranked (λ (m : Stored). m.priority) (box s))))
  unfolding fetch request encode decode_response
  fetch-ranked o n s reader texts oldest well =
      let body = dumps (obj (fetch_body o)) in
      let (reply, p, read) =
        serves.fetched body o n c.request_timeout s
          (reader.reads (obj (fetch_body o)) (fetch_body-HasReadable o texts)) oldest in
      rw (utf8_encode-dumps (obj (fetch_body o)), e, p, read, check_response-wire_reply)
        (messages_of-wire_reply _ (All-take HasBytes n _ (All-ranked _ HasBytes (box s) well)))

  -- A connected client of a broker that serves the mailbox as documented sends messages to the
  -- empty mailbox, one after the other, with whatever priorities, tags that can be told apart, and
  -- no key, delay or time to live, and then fetches at most `n` messages without a group from the
  -- oldest on; the client's JSON reader reads back what `json.dumps` writes. Then every send is
  -- accepted, and the fetch returns the first `n` of the messages in the order critical, urgent,
  -- normal, and within a priority as they were sent, each with the bytes and the priority that it
  -- was sent with.
  pub send_all-fetch :
      (outs : List Outgoing) (o : FetchOptions) (n : ℕ) (s : S)
      → Reads env.loads
      → All IsSendable outs
      → HasTexts o
      → FromOldest env box o n
      → box s ≡ []
      → (ms : List Message) × (((send_all env c address outs >> fetch env c address o) s).0 ≡ ok ms)
        × (map shown ms ≡ take n (ranked (λ (x : Payload × Priority). x.1) (map shown_of outs)))
  send_all-fetch outs o n s reader sendable texts oldest empty =
      let s' = (send_all env c address outs s).1 in
      let (done, (ms, grown, well, same)) = send_all-Filled outs s sendable in
      let now : box s' ≡ ms = grown ∙ ap (λ l. l ++ ms) empty in
      (
        map message_of (take n (ranked (λ (m : Stored). m.priority) ms)),
        rw done (
            fetch-ranked o n s' reader texts oldest (subst (All HasBytes) (sym now) well)
            ∙ ap (λ l. ok (map message_of (take n (ranked (λ (m : Stored). m.priority) l)))) now),
        shown-messages _
            ∙ map-take shown_from n _
            ∙ ap (take n) (
                map-ranked shown_from (λ (x : Payload × Priority). x.1) ms
                ∙ ap (ranked (λ (x : Payload × Priority). x.1)) same),
      )
