-- ===== src/Langchain/Session/Watched.antt =====
-- The library of a client with a count of the connections that are left to be closed. Watching
-- changes nothing of what the calls do; it counts them.
use mq.Base.{ℕ, ◌+◌, ◌-◌, Text, Bool, true, false, some, ◌≡◌, refl, ap, sym, subst, ◌∙◌}
use mq.Py.Exceptions.{Exn, Result, ok, raise}
use mq.Py.Async.{Async}
use mq.Py.Async.Keeps.{Keeps}
use mq.Client.Types.{Nats, Env, Mq9Client}
use mq.Client.Connection.{close}
use mq.Client.Keeps.{Calls}

abbrev pub Watched : Type 0 → Type 0
Watched S = S × ℕ

-- A connection that answers that it is closed is no longer left to be closed.
abbrev pub left : Result Bool → ℕ → ℕ
left (ok true) n = n - 1
left (ok false) n = n
left (raise e) n = n

module _ {S : Type 0} where
  -- A call that closes nothing.
  abbrev pub under : {A : Type 0} → Async S A → Async (Watched S) A
  under m w = ((m w.0).0, ((m w.0).1, w.1))

  -- A connection whose `drain` has been called is no longer left to be closed, whatever `drain` has
  -- ended with.
  abbrev pub watched_nc : Nats S → Nats (Watched S)
  watched_nc nc = record {
    request = λ t b ms. under (nc.request t b ms);
    new_inbox = under nc.new_inbox;
    subscribe = λ t. under (nc.subscribe t);
    publish = λ t b r h. under (nc.publish t b r h);
    deliveries = λ k ms. under (nc.deliveries k ms);
    unsubscribe = λ k. under (nc.unsubscribe k);
    is_closed = λ w. ((nc.is_closed w.0).0, ((nc.is_closed w.0).1, left (nc.is_closed w.0).0 w.1));
    drain = λ w. ((nc.drain w.0).0, ((nc.drain w.0).1, w.1 - 1));
  }

  -- One more is left to be closed when a connection is returned.
  abbrev pub connected : Result (Nats S) → S → ℕ → Result (Nats (Watched S)) × Watched S
  connected (ok nc) s n = (ok (watched_nc nc), (s, n + 1))
  connected (raise e) s n = (raise e, (s, n))

  abbrev pub watched : Env S → Env (Watched S)
  watched env = record {
    connect = λ a n d w. connected (env.connect a n d w.0).0 (env.connect a n d w.0).1 w.1;
    loads = env.loads;
    sleep = λ ms. under (env.sleep ms);
    format = env.format;
  }

-- `is_closed` of nats-py is a property that compares the status: it returns.
pub record Answers {S : Type 0} (env : Env S) : Type 0 where
  pub answers :
      (a : Text) (n d : ℕ) (s : S) (nc : Nats S)
      → (env.connect a n d s).0 ≡ ok nc
      → (w : S) → (b : Bool) × ((nc.is_closed w).0 ≡ ok b)

-- How `count` follows the connections.
pub record Connections {S : Type 0} (env : Env S) (count : S → ℕ) : Type 0 where
  pub refused :
      (a : Text) (n d : ℕ) (s : S) (e : Exn)
      → (env.connect a n d s).0 ≡ raise e
      → count (env.connect a n d s).1 ≡ count s
  pub opened :
      (a : Text) (n d : ℕ) (s : S) (nc : Nats S)
      → (env.connect a n d s).0 ≡ ok nc
      → count (env.connect a n d s).1 ≡ count s + 1
  pub quiet :
      (a : Text) (n d : ℕ) (s : S) (nc : Nats S)
      → (env.connect a n d s).0 ≡ ok nc
      → (m : ℕ) → Calls (λ w. count w ≡ m) nc
  pub settled :
      (a : Text) (n d : ℕ) (s : S) (nc : Nats S)
      → (env.connect a n d s).0 ≡ ok nc
      → (c : Mq9Client S) → c.nc ≡ some nc
      → (w : S) → count (close c w).1 ≡ count w - 1
  pub slept : (ms m : ℕ) → Keeps (λ w. count w ≡ m) (env.sleep ms)

module _ {S : Type 0} where
  abbrev of_watched : Watched S → ℕ
  of_watched w = w.1

  under-Keeps :
      {A : Type 0} (m : Async S A) (n : ℕ) → Keeps (λ (w : Watched S). of_watched w ≡ n) (under m)
  under-Keeps m n = record { at = λ w h. h }

  watched_nc-Calls : (nc : Nats S) (m : ℕ) → Calls (λ w. of_watched w ≡ m) (watched_nc nc)
  watched_nc-Calls nc m = record {
    requested = λ t b ms. under-Keeps (nc.request t b ms) m;
    inbox = under-Keeps nc.new_inbox m;
    subscribed = λ t. under-Keeps (nc.subscribe t) m;
    published = λ t b r h. under-Keeps (nc.publish t b r h) m;
    delivered = λ k ms. under-Keeps (nc.deliveries k ms) m;
    unsubscribed = λ k. under-Keeps (nc.unsubscribe k) m;
  }

  -- Closing a client drains its connection, or finds it closed.
  count-close :
      (nc : Nats S) (c : Mq9Client (Watched S)) (w : Watched S) (b : Bool)
      → c.nc ≡ some (watched_nc nc)
      → (nc.is_closed w.0).0 ≡ ok b
      → (close c w).1.1 ≡ w.1 - 1
  unfolding close
  count-close nc c w true e p = rw (e, p) refl
  count-close nc c w false e p = rw (e, p) refl

  -- What a watched connection watches.
  abbrev Watches : Env S → Text → ℕ → ℕ → S → Nats (Watched S) → Type 0
  Watches env a n d s nc =
      (inner : Nats S) × ((env.connect a n d s).0 ≡ ok inner) × (watched_nc inner ≡ nc)

  abbrev nats_or : Nats (Watched S) → Result (Nats (Watched S)) → Nats (Watched S)
  nats_or nc (ok x) = x
  nats_or nc (raise e) = nc

  connected-Watches :
      (env : Env S) (a : Text) (n d : ℕ) (w : Watched S) (nc : Nats (Watched S))
      → ((watched env).connect a n d w).0 ≡ ok nc
      → Watches env a n d w.0 nc
  connected-Watches env a n d w nc = by_result (env.connect a n d w.0).0 refl
    where
      by_result :
          (r : Result (Nats S))
          → (env.connect a n d w.0).0 ≡ r
          → (connected r (env.connect a n d w.0).1 w.1).0 ≡ ok nc
          → Watches env a n d w.0 nc
      by_result (ok inner) e p = (inner, e, ap (nats_or nc) p)
      by_result (raise x) e p = absurd (cc p)

  pub watched-Connections :
      (env : Env S) → Answers env → Connections (watched env) (λ (w : Watched S). w.1)
  watched-Connections env laws = record {
    refused = λ a n d w e p. refuse (env.connect a n d w.0).0 (env.connect a n d w.0).1 w.1 e p;
    opened = λ a n d w nc p. let (inner, e, q) = connected-Watches env a n d w nc p in rw e refl;
    quiet = λ a n d w nc p m.
        let (inner, e, q) = connected-Watches env a n d w nc p in
        subst (Calls (λ (v : Watched S). v.1 ≡ m)) q (watched_nc-Calls inner m);
    settled = λ a n d w nc p c h v.
        let (inner, e, q) = connected-Watches env a n d w nc p in
        let (b, closed) = laws.answers a n d w.0 inner e v.0 in
        count-close inner c v b (h ∙ ap some (sym q)) closed;
    slept = λ ms m. under-Keeps (env.sleep ms) m;
  }
    where
      refuse :
          (r : Result (Nats S)) (s : S) (n : ℕ) (e : Exn)
          → (connected r s n).0 ≡ raise e
          → (connected r s n).1.1 ≡ n
      refuse (ok nc) s n e p = absurd (cc p)
      refuse (raise x) s n e p = refl
