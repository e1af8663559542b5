-- ===== src/Client/Consumer/Delivery/Loss.antt =====
-- What becomes of a message whose handler has failed.
use mq.Base.{
  ℕ, Text, Bool, Bool-cases, inl, inr, true, false, Option, some, List, [], ◌∷◌, ◌++◌, append_assoc,
  take, drop, take-drop, All, All-append, ◌≡◌, ◌≢◌, refl, sym, ap, subst, ◌∙◌,
}
use mq.Py.Exceptions.{Exn}
use mq.Py.Async.{Async}
use mq.Client.Types.{Nats, Env, Mq9Client, Message}
use mq.Client.Codec.RoundTrip.{Stored}
use mq.Client.Consumer.{Running, ConsumeOptions, round}
use mq.Client.Consumer.Delivery.{IsUnique, left_over, Delivers}
use mq.Client.Consumer.Delivery.Batch.{Acknowledges}
use mq.Client.Consumer.Delivery.Round.{IsSound, IsUnique-after, round-Ends}

All-after : (P : Stored → Type 0) (xs ys : List Stored) → All P (xs ++ ys) → All P ys
All-after P [] ys h = h
All-after P (x ∷ xs) ys h = All-after P xs ys h.1

All-before : (P : Stored → Type 0) (xs ys : List Stored) → All P (xs ++ ys) → All P xs
All-before P [] ys h = tt
All-before P (x ∷ xs) ys h = (h.0, All-before P xs ys h.1)

module _ (fails : Stored → Bool) where
  -- A success covers everything before it.
  left_over-success :
      (failed xs : List Stored) (good : Stored) (ys : List Stored)
      → fails good ≡ false
      → left_over fails failed (xs ++ good ∷ ys) ≡ left_over fails [] ys
  left_over-success failed [] good ys f = rw f refl
  left_over-success failed (x ∷ xs) good ys f = elim (Bool-cases (fails x)) [
    | inl q ↦ rw q (left_over-success (failed ++ x ∷ []) xs good ys f)
    | inr q ↦ rw q (left_over-success [] xs good ys f)
  ]

  All-left_over :
      (P : Stored → Type 0) (failed ms : List Stored)
      → All P failed
      → All P ms
      → All P (left_over fails failed ms)
  All-left_over P failed [] k h = k
  All-left_over P failed (m ∷ ms) k h = elim (Bool-cases (fails m)) [
    | inl q ↦
        rw q (All-left_over P (failed ++ m ∷ []) ms (All-append P failed (m ∷ []) k (h.0, tt)) h.1)
    | inr q ↦ rw q (All-left_over P [] ms tt h.1)
  ]

module _ {S : Type 0} (env : Env S) (c : Mq9Client S) (nc : Nats S) (connected : c.nc ≡ some nc)
    (o : ConsumeOptions) (group : Text) (handler : Message → Async S (Unit {0}))
    (error_handler : Option (Message → Exn → Async S (Unit {0})))
    (how : Acknowledges env c nc connected o group handler error_handler) (n : ℕ)
    (waiting : S → List Stored) (handled : S → List Message) (fails : Stored → Bool)
    (delivers : Delivers env nc o group n waiting handled handler error_handler fails) where
  -- For a connected consumer that acknowledges for its group, a broker that serves the group as
  -- documented, and waiting messages with different ids that JSON text can carry: when the handler
  -- fails for a message and returns for a later one of the same batch, then after the round the
  -- failed message does not wait for the group any more. It is not retried.
  pub failed_is_lost :
      (s : Running S) (before mid later : List Stored) (bad good : Stored)
      → IsUnique (waiting s.net)
      → All IsSound (waiting s.net)
      → take n (waiting s.net) ≡ (before ++ bad ∷ mid) ++ good ∷ later
      → fails bad ≡ true
      → fails good ≡ false
      → All (λ (m : Stored). bad.id ≢ m.id) (waiting (round env c o handler error_handler s).1.net)
  failed_is_lost s before mid later bad good u h e fb fg =
      let behind = drop n (waiting s.net) in
      let (done, moved, called, counted) =
        round-Ends env c nc connected o group handler error_handler how n waiting handled fails
          delivers s u h in
      let whole : waiting s.net ≡ before ++ bad ∷ ((mid ++ good ∷ later) ++ behind) =
        sym (take-drop n (waiting s.net))
        ∙ ap (λ l. l ++ behind) (e ∙ append_assoc before (bad ∷ mid) (good ∷ later))
        ∙ append_assoc before (bad ∷ (mid ++ good ∷ later)) behind in
      let rest = (IsUnique-after before _ (subst IsUnique whole u)).0 in
      subst (All (λ (m : Stored). bad.id ≢ m.id))
        (sym (
          moved
          ∙ ap (λ l. left_over fails [] l ++ behind) e
          ∙ ap (λ l. l ++ behind) (left_over-success fails [] (before ++ bad ∷ mid) good later fg)))
        (All-append _ _ behind
          (All-left_over fails _ [] later tt
            ((All-after _ mid (good ∷ later) (All-before _ (mid ++ good ∷ later) behind rest)).1))
          (All-after _ (mid ++ good ∷ later) behind rest))
