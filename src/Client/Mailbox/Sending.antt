-- ===== src/Client/Mailbox/Sending.antt =====
-- What `send` does to a mailbox.
use mq.Base.{
  ℕ, Text, Bytes, codes, Bool-cases, inl, inr, true, none, some, List, [], ◌∷◌, ◌++◌, is_empty, ◌≡◌,
  refl, ap, sym, subst, ◌∙◌, if◌then◌else◌,
}
use mq.Py.Exceptions.{Result, ok}
use mq.Py.Json.{Json, Fields, get, truthy}
use mq.Py.Async.{Async}
use mq.Py.Dict.{Headers}
use mq.Client.Types.{Priority, normal, Nats, Env, Mq9Client}
use mq.Client.Subjects.{subject_msg_send}
use mq.Client.Codec.{encode, decode_response, check_response}
use mq.Client.Connection.{request, request_with_headers, exchange, publish_and_wait}
use mq.Client.Connection.Replies.{wait_for-first}
use mq.Client.Headers.{Options, headers_of}
use mq.Client.Headers.Decode.{decode, decode-headers_of, priority-decode-nil}
use mq.Client.Messaging.{send}
use mq.Client.Codec.RoundTrip.{Stored}
use mq.Client.Mailbox.{Accepts, Adds, Serves, Outgoing, IsPlain}

is_empty-nil : (h : Headers) → is_empty h ≡ true → h ≡ []
is_empty-nil [] e = refl
is_empty-nil (x ∷ h) e = absurd (cc e)

module _ {S : Type 0} (env : Env S) (box : S → List Stored) where
  -- A request that is accepted, for a message with these bytes and this priority.
  abbrev Accepted : Bytes → Priority → S → Result Fields × S → Type 0
  Accepted b p s r =
      (d : Fields) × (i : Json) × (r.0 ≡ ok d)
      × (get (codes "msg_id") d ≡ some i)
      × Adds env box b p s r.1

  Accepts-decode_response :
      (reply : Bytes)
      → Accepts env box reply
      → (d : Fields) × (i : Json) × (decode_response env.loads reply ≡ ok d)
        × (get (codes "msg_id") d ≡ some i)
  unfolding decode_response check_response truthy
  Accepts-decode_response reply (d, i, read, fine, id) = (d, i, rw (read, fine) refl, id)

  module _ (c : Mq9Client S) (nc : Nats S) (e : c.nc ≡ some nc) (address : Text)
      (Hears : S → ℕ → Text → Type 0) (Answered : S → ℕ → Type 0)
      (serves : Serves env box nc address Hears Answered) where
    request-Accepted :
        (b : Bytes) (s : S) → Accepted b normal s (request env c (subject_msg_send address) b s)
    unfolding request
    request-Accepted b s =
        let (reply, p, accepts, adds) = serves.sent b c.request_timeout s in
        let (d, i, read, id) = Accepts-decode_response reply accepts in
        (d, i, rw (e, p) read, id, rw (e, p) adds)

    exchange-Accepted :
        (b : Bytes) (h : Headers) (i : Text) (k : ℕ) (s : S)
        → Hears s k i
        → (decode h).key ≡ none
        → (decode h).delay ≡ none
        → (decode h).ttl ≡ none
        → Accepted b
            (decode h).priority
            s
            (exchange env nc c.request_timeout (subject_msg_send address) b h i k s)
    unfolding exchange publish_and_wait
    exchange-Accepted b h i k s hears key delay ttl =
        let s1 : S = (nc.publish (subject_msg_send address) b i h s).1 in
        let s2 : S = (nc.deliveries k c.request_timeout s1).1 in
        let (p, (m, bytes, priority, grown)) = serves.published b i h s key delay ttl in
        let (reply, more, q, accepts) =
          serves.delivered k c.request_timeout s1 (serves.answered b i h k s hears) in
        let (d, id, read, got) = Accepts-decode_response reply accepts in
        (
          d,
          id,
          rw (p, q, wait_for-first (reply ∷ more), serves.unsubscribed k s2) read,
          got,
          (
            m,
            bytes,
            priority,
            rw (p, q, wait_for-first (reply ∷ more), serves.unsubscribed k s2)
                (serves.unsubscribe_quiet k s2 ∙ serves.wait_quiet k c.request_timeout s1 ∙ grown),
          ),
        )

    request_with_headers-Accepted :
        (b : Bytes) (h : Headers) (s : S)
        → (decode h).key ≡ none
        → (decode h).delay ≡ none
        → (decode h).ttl ≡ none
        → Accepted b
            (decode h).priority
            s
            (request_with_headers env c (subject_msg_send address) b h s)
    unfolding request_with_headers
    request_with_headers-Accepted b h s key delay ttl =
        let (i, p) = serves.inbox s in
        let (k, q, hears) = serves.subscribed i (nc.new_inbox s).1 in
        let quiet = serves.subscribe_quiet i (nc.new_inbox s).1 ∙ serves.inbox_quiet s in
        let (d, id, done, got, (m, bytes, priority, grown)) =
          exchange-Accepted b h i k (nc.subscribe i (nc.new_inbox s).1).1 hears key delay ttl in
        (
          d,
          id,
          rw (e, p, q) done,
          got,
          (m, bytes, priority, rw (e, p, q) (grown ∙ ap (λ l. l ++ m ∷ []) quiet)),
        )

    abbrev pub Sent : Outgoing → S → Type 0
    Sent m s =
        (i : Json) × ((send env c address m.body m.options s).0 ≡ ok i)
        × Adds env box m.bytes m.options.priority s (send env c address m.body m.options s).1

    -- By the request that `send` chooses.
    send-chosen :
        (m : Outgoing) (s : S) (chosen : Async S Fields)
        → encode m.body ≡ ok m.bytes
        → (if is_empty (headers_of m.options)
            then request env c (subject_msg_send address) m.bytes
            else request_with_headers env c
                (subject_msg_send address)
                m.bytes
                (headers_of m.options))
          ≡ chosen
        → Accepted m.bytes m.options.priority s (chosen s)
        → Sent m s
    unfolding send
    send-chosen m s chosen p q (d, i, done, got, adds) =
        (i, rw (p, q, done, got) refl, rw (p, q, done) adds)

    pub send-Adds :
        (m : Outgoing) (s : S) → encode m.body ≡ ok m.bytes → IsPlain m.options → Sent m s
    send-Adds m s p plain = elim (Bool-cases (is_empty (headers_of m.options))) [
      | inl t ↦ send-chosen m s (request env c (subject_msg_send address) m.bytes) p (rw t refl) (
          subst (λ x. Accepted m.bytes x s (request env c (subject_msg_send address) m.bytes s))
            (bare_priority t) (request-Accepted m.bytes s))
      | inr f ↦
          send-chosen m s
            (request_with_headers env c (subject_msg_send address) m.bytes (headers_of m.options)) p
            (rw f refl)
            (subst
              (λ (x : Options). Accepted m.bytes x.priority s (
                request_with_headers env c (subject_msg_send address) m.bytes (headers_of m.options)
                  s))
              same_options
              (request_with_headers-Accepted m.bytes (headers_of m.options) s
                (ap (λ (x : Options). x.key) same_options ∙ plain.0)
                (ap (λ (x : Options). x.delay) same_options ∙ plain.1)
                (ap (λ (x : Options). x.ttl) same_options ∙ plain.2)))
    ]
      where
        same_options : decode (headers_of m.options) ≡ m.options
        same_options = decode-headers_of m.options plain.3

        bare_priority : is_empty (headers_of m.options) ≡ true → normal ≡ m.options.priority
        bare_priority t =
            sym priority-decode-nil
            ∙ ap (λ h. (decode h).priority) (sym (is_empty-nil (headers_of m.options) t))
            ∙ ap (λ (x : Options). x.priority) same_options
