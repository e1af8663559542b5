-- ===== src/Client/Connection/Subscriptions.antt =====
-- The reply inbox of `_request_with_headers` is given up on every path.
use mq.Base.{ℕ, Text, Bytes, some, List, ◌∷◌, ◌≡◌, refl, ap, ◌∙◌, arith}
use mq.Py.Exceptions.{Exn, Result, ok, raise}
use mq.Py.Async.{Async, resume, ◌>>=◌}
use mq.Py.Json.{Fields}
use mq.Py.Dict.{Headers}
use mq.Client.Types.{Nats, Env, Mq9Client}
use mq.Client.Connection.{publish_and_wait, exchange, request_with_headers}

-- What nats-py documents of subscriptions: `live` are the numbers of the open ones, the latest
-- first. Only `subscribe` and `unsubscribe` change them, and an open one can be given up.
pub record Tracks {S : Type 0} (nc : Nats S) (live : S → List ℕ) : Type 0 where
  pub inbox : (s : S) → live (nc.new_inbox s).1 ≡ live s
  pub opened :
      (t : Text) (s : S) (k : ℕ)
      → (nc.subscribe t s).0 ≡ ok k
      → live (nc.subscribe t s).1 ≡ k ∷ live s
  pub not_opened :
      (t : Text) (s : S) (e : Exn)
      → (nc.subscribe t s).0 ≡ raise e
      → live (nc.subscribe t s).1 ≡ live s
  pub published :
      (t : Text) (b : Bytes) (r : Text) (h : Headers) (s : S)
      → live (nc.publish t b r h s).1 ≡ live s
  pub delivered : (k ms : ℕ) (s : S) → live (nc.deliveries k ms s).1 ≡ live s
  pub closed : (k : ℕ) (s : S) (l : List ℕ) → live s ≡ k ∷ l → live (nc.unsubscribe k s).1 ≡ l

module _ {S : Type 0} (nc : Nats S) (live : S → List ℕ) (tracks : Tracks nc live) where
  live-publish_and_wait :
      (ms k : ℕ) (subject : Text) (payload : Bytes) (inbox : Text) (headers : Headers) (s : S)
      → live (publish_and_wait nc ms k subject payload inbox headers s).1 ≡ live s
  unfolding publish_and_wait
  live-publish_and_wait ms k subject payload inbox headers s =
      let s' = (nc.publish subject payload inbox headers s).1 in
      ground (arith, tracks.published subject payload inbox headers s, tracks.delivered k ms s')

  live-exchange :
      (env : Env S) (ms : ℕ) (subject : Text) (payload : Bytes) (headers : Headers) (inbox : Text)
      (k : ℕ) (s : S) (l : List ℕ)
      → live s ≡ k ∷ l
      → live (exchange env nc ms subject payload headers inbox k s).1 ≡ l
  unfolding exchange
  live-exchange env ms subject payload headers inbox k s l e =
      let s' = (publish_and_wait nc ms k subject payload inbox headers s).1 in
      ground
        (arith, live-publish_and_wait ms k subject payload inbox headers s, tracks.closed k s' l)

  -- For a connected client whose connection tracks its subscriptions as documented: whether the
  -- request is answered, refused, times out, is cancelled or cannot be published, the
  -- subscriptions that are open after `_request_with_headers` are those that were open before it.
  pub live-request_with_headers :
      (env : Env S) (c : Mq9Client S)
      → c.nc ≡ some nc
      → (subject : Text) (payload : Bytes) (headers : Headers) (s : S)
      → live (request_with_headers env c subject payload headers s).1 ≡ live s
  unfolding request_with_headers
  live-request_with_headers env c e subject payload headers s =
      rw e (by_inbox (nc.new_inbox s).0 refl)
    where
      s1 : S
      s1 = (nc.new_inbox s).1

      rest : Text → ℕ → Async S Fields
      rest = exchange env nc c.request_timeout subject payload headers

      by_sub :
          (inbox : Text) (r : Result ℕ)
          → (nc.subscribe inbox s1).0 ≡ r
          → live (resume r (rest inbox) (nc.subscribe inbox s1).1).1 ≡ live s
      by_sub inbox (ok k) p =
          live-exchange env c.request_timeout subject payload headers inbox k
            (nc.subscribe inbox s1).1 (live s)
            (tracks.opened inbox s1 k p ∙ ap (λ l. k ∷ l) (tracks.inbox s))
      by_sub inbox (raise x) p = tracks.not_opened inbox s1 x p ∙ tracks.inbox s

      by_inbox :
          (r : Result Text)
          → (nc.new_inbox s).0 ≡ r
          → live (resume r (λ inbox. nc.subscribe inbox >>= rest inbox) s1).1 ≡ live s
      by_inbox (ok inbox) p = by_sub inbox (nc.subscribe inbox s1).0 refl
      by_inbox (raise x) p = tracks.inbox s
