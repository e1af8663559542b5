-- ===== src/A2a/Lifecycle/Sessions.antt =====
-- Which background tasks a whole session of an agent leaves running.
use mq.Base.{ℕ, ◌+◌, ◌<◌, Text, ℤ, Option, none, some, List, ◌∷◌, All, ◌≡◌, refl, ap, ◌∙◌, arith}
use mq.Py.Exceptions.{ok}
use mq.Client.Types.{Env}
use mq.A2a.Types.{Sdk}
use mq.A2a.Agent.{Agent}
use mq.A2a.Lifecycle.Tasks.{IsFresh, running-unregister, after_end, remove_first, All-suc}
use mq.A2a.Lifecycle.{World, create_mailbox, register, unregister, close, end_task, remove}

module _ (sdk : Sdk) {S : Type 0} (env : Env S) where
  -- What a `create_mailbox` that returns has done to the background tasks.
  create_mailbox-ok :
      (name a : Text) (ttl : ℤ) (w : World sdk S)
      → (create_mailbox sdk env name ttl w).0 ≡ ok a
      → ((create_mailbox sdk env name ttl w).1.running ≡ w.next_task ∷ w.running)
        × ((create_mailbox sdk env name ttl w).1.next_task ≡ w.next_task + 1)
        × ((create_mailbox sdk env name ttl w).1.agent.consumer ≡ some w.next_task)
        × ((create_mailbox sdk env name ttl w).1.agent.heartbeat_task ≡ w.agent.heartbeat_task)
  unfolding create_mailbox
  create_mailbox-ok name a ttl w e = ground (arith, e)

  register-ok :
      (card : sdk.AgentCard) (w : World sdk S)
      → (register sdk env card w).0 ≡ ok tt
      → ((register sdk env card w).1.running ≡ w.next_task ∷ w.running)
        × ((register sdk env card w).1.next_task ≡ w.next_task + 1)
        × ((register sdk env card w).1.agent.heartbeat_task ≡ some w.next_task)
        × ((register sdk env card w).1.agent.consumer ≡ w.agent.consumer)
  unfolding register
  register-ok card w e = ground (arith, e)

  consumer-unregister :
      (w : World sdk S) → (unregister sdk env w).1.agent.consumer ≡ w.agent.consumer
  unfolding unregister end_task
  consumer-unregister w = ground arith

  running-close :
      (w : World sdk S) → (close sdk env w).1.running ≡ after_end sdk env w.agent.consumer w.running
  unfolding close end_task
  running-close w = by_task w.agent.consumer refl
    where
      by_task :
          (o : Option ℕ)
          → w.agent.consumer ≡ o
          → (close sdk env w).1.running ≡ after_end sdk env o w.running
      by_task none e = ground (arith, e)
      by_task (some k) e = ground (arith, e)

  -- The tasks that `close` leaves of those that run.
  close_ends :
      (w : World sdk S) (k : ℕ) (l : List ℕ)
      → w.agent.consumer ≡ some k
      → w.running ≡ l
      → (close sdk env w).1.running ≡ remove k l
  close_ends w k l e r =
      running-close w ∙ ap (λ (o : Option ℕ). after_end sdk env o w.running) e ∙ ap (remove k) r

  unregister_ends :
      (w : World sdk S) (k : ℕ) (l : List ℕ)
      → w.agent.heartbeat_task ≡ some k
      → w.running ≡ l
      → (unregister sdk env w).1.running ≡ remove k l
  unregister_ends w k l e r =
      running-unregister sdk env w
      ∙ ap (λ (o : Option ℕ). after_end sdk env o w.running) e
      ∙ ap (remove k) r

  remove_second :
      (k : ℕ) (l : List ℕ) → All (λ j. j < k) l → remove k ((k + 1) ∷ k ∷ l) ≡ (k + 1) ∷ l
  unfolding remove
  remove_second k l h = ground (arith, remove_first sdk env k l h)

  module _ (w : World sdk S) (fresh : IsFresh w) (name a : Text) (ttl : ℤ)
      (created : (create_mailbox sdk env name ttl w).0 ≡ ok a) where
    abbrev with_mailbox : World sdk S
    with_mailbox = (create_mailbox sdk env name ttl w).1

    fresh_next : All (λ j. j < w.next_task + 1) (w.next_task ∷ w.running)
    fresh_next = (omega arith, All-suc sdk env w.next_task w.running fresh.below)

    second_next :
        {l : List ℕ}
        → l ≡ with_mailbox.next_task ∷ with_mailbox.running
        → l ≡ (w.next_task + 1) ∷ w.next_task ∷ w.running
    second_next p =
        rw ((create_mailbox-ok name a ttl w created).0, (create_mailbox-ok name a ttl w created).1)
          at p

    -- What a registration that returns leaves running.
    pub both_run :
        (card : sdk.AgentCard)
        → (register sdk env card with_mailbox).0 ≡ ok tt
        → (register sdk env card with_mailbox).1.running
          ≡ (w.next_task + 1) ∷ w.next_task ∷ w.running
    both_run card registered = second_next (register-ok card with_mailbox registered).0

    -- An agent that keeps the two tasks of a session, as its mailbox and its registration have
    -- started them, ends both.
    pub both_end :
        (card : sdk.AgentCard)
        → (register sdk env card with_mailbox).0 ≡ ok tt
        → (w3 : World sdk S) → w3.agent ≡ (register sdk env card with_mailbox).1.agent
        → w3.running ≡ (register sdk env card with_mailbox).1.running
        → (close sdk env (unregister sdk env w3).1).1.running ≡ w.running
    both_end card registered w3 same_agent same_tasks =
        let c = create_mailbox-ok name a ttl w created in
        let r = register-ok card with_mailbox registered in
        close_ends (unregister sdk env w3).1 w.next_task (w.next_task ∷ w.running)
          (consumer-unregister w3 ∙ ap (λ (a : Agent sdk S). a.consumer) same_agent ∙ r.3 ∙ c.2)
          (unregister_ends w3 (w.next_task + 1) _
              (ap (λ (a : Agent sdk S). a.heartbeat_task) same_agent ∙ r.2 ∙ ap some c.1)
              (same_tasks ∙ second_next r.0)
            ∙ remove_first sdk env (w.next_task + 1) (w.next_task ∷ w.running) fresh_next)
        ∙ remove_first sdk env w.next_task w.running fresh.below

    -- For an agent whose task numbers are fresh: a mailbox that was created, a registration that
    -- returned, `unregister` and `close` leave no background task of their own.
    pub session_leaves_no_task :
        (card : sdk.AgentCard)
        → (register sdk env card with_mailbox).0 ≡ ok tt
        → (close sdk env (unregister sdk env (register sdk env card with_mailbox).1).1).1.running
          ≡ w.running
    session_leaves_no_task card registered =
        both_end card registered (register sdk env card with_mailbox).1 refl refl

    -- For an agent whose task numbers are fresh: `close` after a registration that returned, with
    -- no `unregister` between, ends the consumer only, and leaves the heartbeat running.
    pub close_leaves_heartbeat :
        (card : sdk.AgentCard)
        → (register sdk env card with_mailbox).0 ≡ ok tt
        → (close sdk env (register sdk env card with_mailbox).1).1.running
          ≡ (w.next_task + 1) ∷ w.running
    close_leaves_heartbeat card registered =
        let c = create_mailbox-ok name a ttl w created in
        let r = register-ok card with_mailbox registered in
        close_ends (register sdk env card with_mailbox).1 w.next_task _ (r.3 ∙ c.2)
          (second_next r.0)
        ∙ remove_second w.next_task w.running fresh.below

    -- For an agent whose task numbers are fresh: when `create_mailbox` has returned twice, `close`
    -- ends the second consumer only. The first one runs on.
    pub create_twice_leaks :
        (name' a' : Text) (ttl' : ℤ)
        → (create_mailbox sdk env name' ttl' with_mailbox).0 ≡ ok a'
        → (close sdk env (create_mailbox sdk env name' ttl' with_mailbox).1).1.running
          ≡ w.next_task ∷ w.running
    create_twice_leaks name' a' ttl' again =
        let c = create_mailbox-ok name a ttl w created in
        let d = create_mailbox-ok name' a' ttl' with_mailbox again in
        close_ends (create_mailbox sdk env name' ttl' with_mailbox).1 (w.next_task + 1) _
          (d.2 ∙ ap some c.1) (second_next d.0)
        ∙ remove_first sdk env (w.next_task + 1) (w.next_task ∷ w.running) fresh_next
