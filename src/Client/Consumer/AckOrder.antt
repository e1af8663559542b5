-- ===== src/Client/Consumer/AckOrder.antt =====
-- A consumer acknowledges a message only after its handler has returned.
use mq.Base.{
  ℕ, Text, Bytes, Bool, true, false, Option, some, List, [], ◌∷◌, ◌≡◌, ◌⊎◌, inl, refl, ap, ◌∙◌, sym,
  subst, arith, text_eq, text_eq_refl, if◌then◌else◌,
}
use mq.Py.Exceptions.{Exn, Result, ok, raise}
use mq.Py.Json.{Json, obj}
use mq.Py.Dumps.{dumps}
use mq.Py.Dumps.Ascii.{utf8_encode-dumps}
use mq.Py.Async.{Async, resume}
use mq.Py.Async.Keeps.{Keeps, Keeps-pure, Keeps-try, Keeps-bind}
use mq.Client.Types.{Nats, Env, Mq9Client, Message}
use mq.Client.Codec.{encode}
use mq.Client.Subjects.{subject_msg_fetch, subject_msg_ack}
use mq.Client.Connection.{request}
use mq.Client.Messaging.{fetch, ack, fetch_body, ack_body, FetchOptions}
use mq.Client.Consumer.Keeps.{rounds-Keeps}
use mq.Client.Consumer.{
  Running, ConsumeOptions, fetch_options, on_error, ack_if, poll, handle_and_ack, rounds,
}

-- What has happened: a handler has returned, or a request has gone out.
pub data Event : Type 0 where
  handled : Message → Event
  sent : Text → Bytes → Event

-- A journal of the requests and the handler's returns, the latest first. The error handler makes no
-- request and handles no message; nor does a handler that raises.
pub record Journals {S : Type 0} (env : Env S) (nc : Nats S)
    (handler : Message → Async S (Unit {0}))
    (error_handler : Option (Message → Exn → Async S (Unit {0}))) (journal : S → List Event)
    : Type 0 where
  pub requested :
      (t : Text) (b : Bytes) (ms : ℕ) (s : S)
      → journal (nc.request t b ms s).1 ≡ sent t b ∷ journal s
  pub returned :
      (msg : Message) (s : S)
      → (handler msg s).0 ≡ ok tt
      → journal (handler msg s).1 ≡ handled msg ∷ journal s
  pub raised :
      (msg : Message) (s : S) (e : Exn)
      → (handler msg s).0 ≡ raise e
      → journal (handler msg s).1 ≡ journal s
  pub recovered :
      (msg : Message) (e : Exn) (s : S) → journal (on_error error_handler msg e s).1 ≡ journal s
  pub slept : (ms : ℕ) (s : S) → journal (env.sleep ms s).1 ≡ journal s

module _ (mail_address group : Text) where
  -- The bytes are an acknowledgement of a message that a handler has returned from.
  pub Handled : Bytes → List Event → Type 0
  Handled b [] = ⊥
  Handled b (handled msg ∷ j) =
      (b ≡ dumps (obj (ack_body mail_address group msg.msg_id))) ⊎ Handled b j
  Handled b (sent t c ∷ j) = Handled b j

  -- Every ACK request to the mailbox acknowledges a message that was handled before it.
  abbrev pub AcksFollow : List Event → Type 0
  AcksFollow [] = Unit
  AcksFollow (handled msg ∷ j) = AcksFollow j
  AcksFollow (sent t b ∷ j) =
      (if text_eq t (subject_msg_ack mail_address) then Handled b j else Unit) × AcksFollow j

module _ {S : Type 0} (env : Env S) (c : Mq9Client S) (nc : Nats S) (e : c.nc ≡ some nc) where
  -- The state after a request is the one after the call of nats-py.
  pub state-request :
      (t : Text) (b : Bytes) (s : S)
      → (request env c t b s).1 ≡ (nc.request t b c.request_timeout s).1
  unfolding request
  state-request t b s = rw e (ground arith)

  pub state-ack :
      (a g : Text) (i : Json) (s : S)
      → (ack env c a g i s).1
        ≡ (request env c (subject_msg_ack a) (dumps (obj (ack_body a g i))) s).1
  unfolding ack encode
  state-ack a g i s = rw utf8_encode-dumps (ground arith)

  pub state-fetch :
      (a : Text) (o : FetchOptions) (s : S)
      → (fetch env c a o s).1
        ≡ (request env c (subject_msg_fetch a) (dumps (obj (fetch_body o))) s).1
  unfolding fetch encode
  state-fetch a o s = rw utf8_encode-dumps (ground arith)

module _ {S : Type 0} (env : Env S) (c : Mq9Client S) (o : ConsumeOptions)
    (handler : Message → Async S (Unit {0}))
    (error_handler : Option (Message → Exn → Async S (Unit {0}))) (nc : Nats S) (e : c.nc ≡ some nc)
    (group : Text) (g : o.group_name ≡ some group) (journal : S → List Event)
    (journals : Journals env nc handler error_handler journal) where
  abbrev Follows : S → Type 0
  Follows s = AcksFollow o.mail_address group (journal s)

  abbrev moved : {s t : S} → journal t ≡ journal s → Follows s → Follows t
  moved q p = subst (AcksFollow o.mail_address group) (sym q) p

  journal-fetch :
      (s : S)
      → journal (fetch env c o.mail_address (fetch_options o) s).1
        ≡ sent (subject_msg_fetch o.mail_address) (dumps (obj (fetch_body (fetch_options o))))
          ∷ journal s
  journal-fetch s =
      ap journal
        (state-fetch env c nc e o.mail_address (fetch_options o) s ∙ state-request env c nc e _ _ s)
      ∙ journals.requested _ _ _ s

  fetch_not_ack : (a : Text) → text_eq (subject_msg_fetch a) (subject_msg_ack a) ≡ false
  unfolding text_eq
  fetch_not_ack a = refl

  fetch-Keeps : Keeps Follows (fetch env c o.mail_address (fetch_options o))
  fetch-Keeps = record {
    at = λ s p.
        subst (AcksFollow o.mail_address group) (sym (journal-fetch s))
          (rw (fetch_not_ack o.mail_address) tt, p);
  }

  poll-Keeps : Keeps Follows (poll env c o)
  unfolding poll
  poll-Keeps = Keeps-try _ _ fetch-Keeps λ x.
      Keeps-bind (env.sleep 1000) _ (record { at = λ s p. moved (journals.slept 1000 s) p })
        λ _. Keeps-pure []

  journal-ack_if :
      (b : Bool) (msg : Message) (s : S) (j : List Event)
      → journal s ≡ handled msg ∷ j
      → AcksFollow o.mail_address group j
      → Follows (ack_if env c o b o.group_name msg s).1
  unfolding Handled
  journal-ack_if false msg s j q p = subst (AcksFollow o.mail_address group) (sym q) p
  journal-ack_if true msg s j q p = rw g (
      subst (AcksFollow o.mail_address group)
        (sym (
          ap journal (state-ack env c nc e _ group msg.msg_id s ∙ state-request env c nc e _ _ s)
          ∙ journals.requested _ _ _ s))
        (
          rw text_eq_refl (subst (Handled o.mail_address group _) (sym q) (inl refl)),
          subst (AcksFollow o.mail_address group) (sym q) p,
        ))

  handle_and_ack-Keeps :
      (msg : Message) → Keeps Follows (handle_and_ack env c o handler error_handler msg)
  unfolding handle_and_ack
  handle_and_ack-Keeps msg = record { at = λ s p. after s p (handler msg s).0 refl }
    where
      after :
          (s : S)
          → Follows s
          → (r : Result (Unit {0})) → (handler msg s).0 ≡ r
          → Follows (resume r (λ _. ack_if env c o o.auto_ack o.group_name msg) (handler msg s).1).1
      after s p (ok _) q =
          journal-ack_if o.auto_ack msg (handler msg s).1 (journal s) (journals.returned msg s q) p
      after s p (raise x) q = moved (journals.raised msg s x q) p

  -- For a connected client, and a handler and an error handler that make no request of their own:
  -- however many rounds the loop of `consume` makes and however they end, every ACK request of the
  -- mailbox that is in the journal acknowledges a message whose handler had returned before it, if
  -- that held at the start.
  pub acks_follow :
      (n : ℕ) (s : Running S)
      → AcksFollow o.mail_address group (journal s.net)
      → AcksFollow o.mail_address group (journal (rounds env c o handler error_handler n s).1.net)
  acks_follow n s p =
      (rounds-Keeps env c o handler error_handler poll-Keeps handle_and_ack-Keeps
          (λ msg x. record { at = λ t q. moved (journals.recovered msg x t) q }) n).at
        s p
