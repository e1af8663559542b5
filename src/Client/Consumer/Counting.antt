-- ===== src/Client/Consumer/Counting.antt =====
-- What a batch does to the messages and to `processed_count`.
use mq.Base.{
  ℕ, suc, ◌+◌, ◌≤◌, ◌↔◌, Bool, true, false, Option, List, [], ◌∷◌, length, ◌≡◌, refl, sym, ap,
  subst, ◌∙◌, arith,
}
use mq.Py.Exceptions.{Exn, Result, ok, raise, is_exception}
use mq.Py.Async.{Async}
use mq.Client.Types.{Env, Mq9Client, Message}
use mq.Client.Consumer.{
  Running, ConsumeOptions, on_error, handle_and_ack, handle_message, handle_messages,
}

module _ {S : Type 0} (env : Env S) (c : Mq9Client S) (o : ConsumeOptions)
    (handler : Message → Async S (Unit {0}))
    (error_handler : Option (Message → Exn → Async S (Unit {0}))) where
  -- What a batch is meant to do: `Handles msgs t u n` takes the world from `t` to `u`, each message
  -- either processed, or failed and handed to the error handler, and `n` of them processed.
  pub data Handles : List Message → S → S → ℕ → Type 0 where
    done : {t : S} → Handles [] t t 0
    processed :
        {msg : Message} {msgs : List Message} {t u v : S} {n : ℕ}
        → handle_and_ack env c o handler error_handler msg t ≡ (ok tt, u)
        → Handles msgs u v n
        → Handles (msg ∷ msgs) t v (suc n)
    failed :
        {msg : Message} {msgs : List Message} {t u v w : S} {n : ℕ} (e : Exn)
        → handle_and_ack env c o handler error_handler msg t ≡ (raise e, u)
        → is_exception e ≡ true
        → on_error error_handler msg e u ≡ (ok tt, v)
        → Handles msgs v w n
        → Handles (msg ∷ msgs) t w n

  -- A state whose world is `u` and whose consumer has counted `n` more messages.
  abbrev pub counted : Running S → S → ℕ → Running S
  counted s u n = record {
    net = u;
    consumer = record s.consumer { processed_count = s.consumer.processed_count + n };
  }

  abbrev one : Message → Async S (Unit {0})
  one = handle_and_ack env c o handler error_handler

  abbrev step : Message → Async (Running S) (Unit {0})
  step = handle_message env c o handler error_handler

  pub step_processed :
      (msg : Message) (s : Running S) {u : S}
      → one msg s.net ≡ (ok tt, u)
      → step msg s ≡ (ok tt, counted s u 1)
  unfolding handle_message
  step_processed msg s p = rw p

  pub step_failed :
      (msg : Message) (s : Running S) {u : S} (e : Exn)
      → one msg s.net ≡ (raise e, u)
      → is_exception e ≡ true
      → step msg s ≡ (
        (on_error error_handler msg e u).0,
        record s { net = (on_error error_handler msg e u).1 },
      )
  unfolding handle_message
  step_failed msg s e p q = rw (p, q)

  step_cancelled :
      (msg : Message) (s : Running S) {u : S} (e : Exn)
      → one msg s.net ≡ (raise e, u)
      → is_exception e ≡ false
      → step msg s ≡ (raise e, record s { net = u })
  unfolding handle_message
  step_cancelled msg s e p q = rw (p, q)

  Handles-complete :
      {msgs : List Message} {t u : S} {n : ℕ} (s : Running S)
      → Handles msgs t u n
      → s.net ≡ t
      → handle_messages env c o handler error_handler msgs s ≡ (ok tt, counted s u n)
  unfolding handle_messages
  Handles-complete s done e = ground (arith, e)
  Handles-complete s (processed {msg = m} {u = u} {n = n} p h) e =
      rw (step_processed m s (ap (one m) e ∙ p))
        (Handles-complete (counted s u 1) h refl ∙ ground arith)
  Handles-complete s (failed {msg = m} {u = u} {v = v} x p q r h) e =
      rw (step_failed m s x (ap (one m) e ∙ p) q)
        (rw r (Handles-complete (record s { net = v }) h refl))

  -- What a batch that goes through has done to its world and its count.
  abbrev pub Through : List Message → Running S → Running S → Type 0
  Through msgs s s' = (n : ℕ) × Handles msgs s.net s'.net n × (s' ≡ counted s s'.net n)

  processed-Through :
      (msg : Message) (msgs : List Message) (s s' : Running S) (u : S)
      → one msg s.net ≡ (ok tt, u)
      → Through msgs (counted s u 1) s'
      → Through (msg ∷ msgs) s s'
  processed-Through msg msgs s s' u p (n, h, q) = (suc n, processed p h, q ∙ ground arith)

  failed-Through :
      (msg : Message) (msgs : List Message) (s s' : Running S) (u v : S) (e : Exn)
      → one msg s.net ≡ (raise e, u)
      → is_exception e ≡ true
      → on_error error_handler msg e u ≡ (ok tt, v)
      → Through msgs (record s { net = v }) s'
      → Through (msg ∷ msgs) s s'
  failed-Through msg msgs s s' u v e p q r (n, h, x) = (n, failed e p q r h, x)

  Handles-sound :
      (msgs : List Message) (s s' : Running S)
      → handle_messages env c o handler error_handler msgs s ≡ (ok tt, s')
      → Through msgs s s'
  unfolding handle_messages
  Handles-sound [] s s' e =
      subst (λ w. Through [] s w) (ap (λ (q : Result (Unit {0}) × Running S). q.1) e)
        (0, done, ground arith)
  Handles-sound (msg ∷ msgs) s s' e = by_one (λ w. Handles-sound msgs w s') (one msg s.net) refl
    where
      Rest : Type 0
      Rest =
          (w : Running S)
          → handle_messages env c o handler error_handler msgs w ≡ (ok tt, s')
          → Through msgs w s'

      again : Rest → (w : Running S) → step msg s ≡ (ok tt, w) → Through msgs w s'
      again ih w x = ih w (rw x at e)

      stuck : (y : Exn) (w : Running S) → step msg s ≡ (raise y, w) → Through (msg ∷ msgs) s s'
      stuck y w x = cc (rw x at e)

      by_error :
          Rest
          → (x : Exn) (u : S) (b : Bool) → one msg s.net ≡ (raise x, u)
          → is_exception x ≡ b
          → (r : Result (Unit {0}) × S) → on_error error_handler msg x u ≡ r
          → Through (msg ∷ msgs) s s'
      by_error ih x u true p q (ok _, v) r =
          failed-Through msg msgs s s' u v x p q r
            (again ih (record s { net = v }) (step_failed msg s x p q ∙ rw r))
      by_error ih x u true p q (raise y, v) r =
          stuck y (record s { net = v }) (step_failed msg s x p q ∙ rw r)
      by_error ih x u false p q r' r = stuck x _ (step_cancelled msg s x p q)

      by_one : Rest → (r : Result (Unit {0}) × S) → one msg s.net ≡ r → Through (msg ∷ msgs) s s'
      by_one ih (ok _, u) p =
          processed-Through msg msgs s s' u p (again ih _ (step_processed msg s p))
      by_one ih (raise x, u) p =
          by_error ih x u (is_exception x) p refl (on_error error_handler msg x u) refl

  -- A batch goes through exactly when it can be read as a run of `Handles`; then it has added to
  -- `processed_count` the number of messages whose handler and acknowledgement returned, and has
  -- changed nothing else of the consumer.
  pub handle_messages_iff :
      (msgs : List Message) (s s' : Running S)
      → (handle_messages env c o handler error_handler msgs s ≡ (ok tt, s'))
        ↔ ((n : ℕ) × Handles msgs s.net s'.net n × (s' ≡ counted s s'.net n))
  handle_messages_iff msgs s s' = (
    Handles-sound msgs s s',
    λ (n, h, e). Handles-complete s h refl ∙ ap (λ w. (ok tt, w)) (sym e),
  )

  Handles-le-length : {msgs : List Message} {t u : S} {n : ℕ} → Handles msgs t u n → n ≤ length msgs
  Handles-le-length done = omega arith
  Handles-le-length (processed p h) = omega (arith, Handles-le-length h)
  Handles-le-length (failed e p q r h) = omega (arith, Handles-le-length h)
