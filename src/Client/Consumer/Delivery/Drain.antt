-- ===== src/Client/Consumer/Delivery/Drain.antt =====
-- What becomes of the messages that wait for a group while a consumer runs.
use mq.Base.{
  ℕ, zero, suc, ◌+◌, ◌*◌, ◌≤◌, Text, Bool, true, false, Option, some, List, [], ◌∷◌, ◌++◌, map,
  append_assoc, append-nil, take, drop, take-drop, length, length-append, All, All-take, ◌≡◌, refl,
  sym, ap, subst, ◌∙◌, arith,
}
use mathlib.Core.List.{map-append}
use mq.Py.Exceptions.{Exn, Result, ok}
use mq.Py.Async.{Async}
use mq.Client.Types.{Nats, Env, Mq9Client, Message}
use mq.Client.Codec.RoundTrip.{Stored, message_of}
use mq.Client.Consumer.{Running, ConsumeOptions, round, rounds}
use mq.Client.Consumer.Delivery.{IsUnique, left_over, succeeded, Delivers}
use mq.Client.Consumer.Delivery.Batch.{Acknowledges, After}
use mq.Client.Consumer.Delivery.Round.{IsSound, IsUnique-after, round-Ends}

module _ (fails : Stored → Bool) where
  left_over-none : (ms : List Stored) → All (λ m. fails m ≡ false) ms → left_over fails [] ms ≡ []
  left_over-none [] h = refl
  left_over-none (m ∷ ms) h = rw h.0 (left_over-none ms h.1)

  left_over-all :
      (failed ms : List Stored)
      → All (λ m. fails m ≡ true) ms
      → left_over fails failed ms ≡ failed ++ ms
  left_over-all failed [] h = sym (append-nil failed)
  left_over-all failed (m ∷ ms) h =
      rw h.0 (left_over-all (failed ++ m ∷ []) ms h.1 ∙ append_assoc failed (m ∷ []) ms)

  succeeded-none : (ms : List Stored) → All (λ m. fails m ≡ true) ms → succeeded fails ms ≡ []
  succeeded-none [] h = refl
  succeeded-none (m ∷ ms) h = rw h.0 (succeeded-none ms h.1)

  succeeded-all : (ms : List Stored) → All (λ m. fails m ≡ false) ms → succeeded fails ms ≡ ms
  succeeded-all [] h = refl
  succeeded-all (m ∷ ms) h = rw h.0 (ap (λ l. m ∷ l) (succeeded-all ms h.1))

All-drop : (P : Stored → Type 0) (n : ℕ) (ms : List Stored) → All P ms → All P (drop n ms)
All-drop P zero ms h = h
All-drop P (suc n) [] h = tt
All-drop P (suc n) (m ∷ ms) h = All-drop P n ms h.1

length-drop_le : (n k : ℕ) (ms : List Stored) → length ms ≤ n + k → length (drop n ms) ≤ k
length-drop_le zero k ms h = omega (arith, h)
length-drop_le (suc n) k [] h = omega arith
length-drop_le (suc n) k (m ∷ ms) h = length-drop_le n k ms (omega (arith, h))

map-split :
    (n : ℕ) (ms : List Stored)
    → map message_of (take n ms) ++ map message_of (drop n ms) ≡ map message_of ms
map-split n ms =
    sym (map-append message_of (take n ms) (drop n ms)) ∙ ap (map message_of) (take-drop n ms)

length-split : (n : ℕ) (ms : List Stored) → length (take n ms) + length (drop n ms) ≡ length ms
length-split n ms = sym (length-append (take n ms) (drop n ms)) ∙ ap length (take-drop n ms)

module _ {S : Type 0} (env : Env S) (c : Mq9Client S) (nc : Nats S) (connected : c.nc ≡ some nc)
    (o : ConsumeOptions) (group : Text) (handler : Message → Async S (Unit {0}))
    (error_handler : Option (Message → Exn → Async S (Unit {0})))
    (how : Acknowledges env c nc connected o group handler error_handler) (n : ℕ)
    (waiting : S → List Stored) (handled : S → List Message) (fails : Stored → Bool)
    (delivers : Delivers env nc o group n waiting handled handler error_handler fails) where
  abbrev loop : ℕ → Async (Running S) (Unit {0})
  loop = rounds env c o handler error_handler

  -- The loop is still running, none of `ms` waits, and each has been handled once, in order.
  abbrev pub Drained : Running S → List Stored → Result (Unit {0}) × Running S → Type 0
  Drained s ms r =
      (r.0 ≡ ok tt)
      × (waiting r.1.net ≡ [])
      × (handled r.1.net ≡ handled s.net ++ map message_of ms)
      × (r.1.consumer.processed_count ≡ s.consumer.processed_count + length ms)

  drain-from :
      (k : ℕ) (ms : List Stored) (s : Running S)
      → waiting s.net ≡ ms
      → IsUnique ms
      → All IsSound ms
      → All (λ m. fails m ≡ false) ms
      → length ms ≤ k * n
      → Drained s ms (loop k s)
  unfolding rounds
  drain-from zero [] s e u h f l = (refl, e, sym (append-nil _), omega arith)
  drain-from zero (m ∷ ms) s e u h f l = absurd (omega (arith, l))
  drain-from (suc k) ms s e u h f l =
      let (done, moved, called, counted) =
        subst
          (λ w.
            After env c nc connected o group handler error_handler how n waiting handled fails
              delivers s (take n w) (left_over fails [] (take n w) ++ drop n w)
              (round env c o handler error_handler s))
          e
          (round-Ends env c nc connected o group handler error_handler how n waiting handled fails
            delivers s (subst IsUnique (sym e) u) (subst (All IsSound) (sym e) h)) in
      let f' = All-take _ n ms f in
      let (done', moved', called', counted') =
        drain-from k (drop n ms) (round env c o handler error_handler s).1
          (moved ∙ ap (λ x. x ++ drop n ms) (left_over-none fails (take n ms) f'))
          (IsUnique-after (take n ms) (drop n ms) (subst IsUnique (sym (take-drop n ms)) u))
          (All-drop IsSound n ms h) (All-drop _ n ms f)
          (length-drop_le n (k * n) ms (omega (arith, l))) in
      rw done (
        done',
        moved',
        called'
            ∙ ap (λ l. l ++ map message_of (drop n ms)) called
            ∙ ap (λ l. (handled s.net ++ map message_of l) ++ map message_of (drop n ms))
                (succeeded-all fails (take n ms) f')
            ∙ append_assoc (handled s.net) _ _
            ∙ ap (λ l. handled s.net ++ l) (map-split n ms),
        omega (
          arith,
          counted',
          counted,
          ap length (succeeded-all fails (take n ms) f'),
          length-split n ms,
        ),
      )

  -- A connected consumer that acknowledges for its group, of a broker that serves the group as
  -- documented, gets through all that waits for the group, if no two ids are equal, the ids can be
  -- read back from JSON text, the payloads are bytes and the handler fails for none of the
  -- messages: after `k` rounds of up to `n` messages, with no more than `k * n` waiting, none of
  -- them waits any more, the handler has returned exactly once for each, in the broker's order,
  -- all are counted, and the loop is still running.
  pub rounds_drain :
      (k : ℕ) (s : Running S)
      → IsUnique (waiting s.net)
      → All IsSound (waiting s.net)
      → All (λ m. fails m ≡ false) (waiting s.net)
      → length (waiting s.net) ≤ k * n
      → Drained s (waiting s.net) (loop k s)
  rounds_drain k s u h f l = drain-from k (waiting s.net) s refl u h f l

  -- Under the same conditions on the broker, the consumer and the ids, but with a handler that
  -- fails for all of the first `n` messages that wait, or for all if there are fewer: however many
  -- rounds the loop makes, it goes on, no message leaves and none is counted, so that the messages
  -- behind the first `n` are never reached.
  pub rounds_starve :
      (k : ℕ) (s : Running S)
      → IsUnique (waiting s.net)
      → All IsSound (waiting s.net)
      → All (λ m. fails m ≡ true) (take n (waiting s.net))
      → ((loop k s).0 ≡ ok tt)
        × (waiting (loop k s).1.net ≡ waiting s.net)
        × ((loop k s).1.consumer.processed_count ≡ s.consumer.processed_count)
  unfolding rounds
  rounds_starve zero s u h f = (refl, refl, refl)
  rounds_starve (suc k) s u h f =
      let (done, moved, called, counted) =
        round-Ends env c nc connected o group handler error_handler how n waiting handled fails
          delivers s u h in
      let still =
        moved
        ∙ ap (λ l. l ++ drop n (waiting s.net)) (left_over-all fails [] _ f)
        ∙ take-drop n (waiting s.net) in
      let (done', moved', counted') =
        rounds_starve k (round env c o handler error_handler s).1 (subst IsUnique (sym still) u)
          (subst (All IsSound) (sym still) h)
          (subst (λ l. All (λ m. fails m ≡ true) (take n l)) (sym still) f) in
      rw done (
        done',
        moved' ∙ still,
        omega (arith, counted', counted, ap length (succeeded-none fails _ f)),
      )
