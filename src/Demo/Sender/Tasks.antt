-- ===== src/Demo/Sender/Tasks.antt =====
-- The background tasks of the demo's sender.
use mq.Base.{
  ◌+◌, Text, codes, pos, true, Bool-cases, inl, inr, some, ◌∷◌, ◌≡◌, refl, ap, ◌∙◌, arith,
}
use mq.Py.Exceptions.{Exn, Result, ok, raise}
use mq.Py.Json.{Json, truthy}
use mq.Client.Types.{Env}
use mq.A2a.Types.{Sdk}
use mq.A2a.Calls.{discover}
use mq.A2a.Lifecycle.{World, connect, create_mailbox, register, unregister, close, on_net}
use mq.A2a.Lifecycle.Tasks.{IsFresh}
use mq.A2a.Lifecycle.Sessions.{both_end, both_run}
use mq.Demo.Cards.{agent_b_card}
use mq.Demo.Translator.{Parts}
use mq.Demo.Translator.Tasks.{tasks-connect, connect-IsFresh}
use mq.Demo.Sender.{run_client, send_task, stop, with_agents}

module _ (sdk : Sdk) (parts : Parts sdk) {S : Type 0} (env : Env S) where
  -- The world after each of the calls that start the script.
  abbrev pub connected : World sdk S → World sdk S
  connected w = (connect sdk env w).1

  abbrev pub with_mailbox : World sdk S → World sdk S
  with_mailbox w = (create_mailbox sdk env (codes "demo.agent.sender") (pos 0) (connected w)).1

  abbrev pub registered : World sdk S → World sdk S
  registered w = (register sdk env (parts.agent_card agent_b_card) (with_mailbox w)).1

  abbrev pub found : World sdk S → Result Json
  found w =
      (discover sdk env (registered w).agent (some (codes "translation agent")) true (pos 10)
        (registered w).net).0

  abbrev pub after_search : World sdk S → World sdk S
  after_search w =
      (on_net
        (discover sdk env (registered w).agent (some (codes "translation agent")) true (pos 10))
        (registered w)).1

  ends-stop :
      (w : World sdk S)
      → (stop sdk parts env w).0 ≡ ok tt
      → (stop sdk parts env w).1 ≡ (close sdk env (unregister sdk env w).1).1
  unfolding stop
  ends-stop w e = ground (arith, e)

  module _ (w : World sdk S) (a : Text) (fresh : IsFresh w) (c : (connect sdk env w).0 ≡ ok tt)
      (m : (create_mailbox sdk env (codes "demo.agent.sender") (pos 0) (connected w)).0 ≡ ok a)
      (r : (register sdk env (parts.agent_card agent_b_card) (with_mailbox w)).0 ≡ ok tt) where
    stops :
        (w3 : World sdk S)
        → w3.agent ≡ (registered w).agent
        → w3.running ≡ (registered w).running
        → (stop sdk parts env w3).0 ≡ ok tt
        → (stop sdk parts env w3).1.running ≡ w.running
    stops w3 p q e =
        ap (λ (v : World sdk S). v.running) (ends-stop w3 e)
        ∙ both_end sdk env (connected w) (connect-IsFresh sdk parts env w fresh)
            (codes "demo.agent.sender") a (pos 0) m (parts.agent_card agent_b_card) r w3 p q
        ∙ (tasks-connect sdk parts env w).0

    with_agents-stops :
        (agents : Json) (w3 : World sdk S)
        → w3.agent ≡ (registered w).agent
        → w3.running ≡ (registered w).running
        → (with_agents sdk parts env (registered w).agent a agents w3).0 ≡ ok tt
        → (with_agents sdk parts env (registered w).agent a agents w3).1.running ≡ w.running
    unfolding with_agents
    with_agents-stops agents w3 p q e = elim (Bool-cases (truthy agents)) [
      | inl t ↦ by_sent t (send_task sdk parts env (registered w).agent a agents w3.net).0 refl
      | inr f ↦ rw f (stops w3 p q (rw f at e))
    ]
      where
        after_sending : World sdk S
        after_sending = (on_net (send_task sdk parts env (registered w).agent a agents) w3).1

        by_sent :
            truthy agents ≡ true
            → (sent : Result (Unit {0}))
            → (send_task sdk parts env (registered w).agent a agents w3.net).0 ≡ sent
            → (with_agents sdk parts env (registered w).agent a agents w3).1.running ≡ w.running
        by_sent t (ok _) h = rw (t, h) (stops after_sending p q (rw (t, h) at e))
        by_sent t (raise x) h = absurd (cc (rw (t, h) at e))

    by_found :
        (agents : Result Json)
        → found w ≡ agents
        → (run_client sdk parts env w).0 ≡ ok tt
        → (run_client sdk parts env w).1.running ≡ w.running
    unfolding run_client
    by_found (ok agents) h e =
        rw (c, m, r, h) (with_agents-stops agents (after_search w) refl refl (rw (c, m, r, h) at e))
    by_found (raise x) h e = absurd (cc (rw (c, m, r, h) at e))

    -- For an agent whose task numbers are fresh, and that is connected, has its mailbox and is
    -- registered: if the script returns, whether it has found an agent or not, it leaves no
    -- background task of its own.
    run_client_leaves_no_task :
        (run_client sdk parts env w).0 ≡ ok tt → (run_client sdk parts env w).1.running ≡ w.running
    run_client_leaves_no_task = by_found (found w) refl

    -- For an agent whose task numbers are fresh, and that is connected, has its mailbox and is
    -- registered: if the search for agents raises, the script raises the same exception, and leaves
    -- the consumer and the heartbeat of its agent running.
    search_error_leaks :
        (x : Exn)
        → found w ≡ raise x
        → ((run_client sdk parts env w).0 ≡ raise x)
          × ((run_client sdk parts env w).1.running ≡ (w.next_task + 1) ∷ w.next_task ∷ w.running)
    unfolding run_client
    search_error_leaks x h =
        rw (c, m, r, h)
          (
            refl,
            rw (tasks-connect sdk parts env w).0 at (
                rw (tasks-connect sdk parts env w).1 at (
                  both_run sdk env (connected w) (connect-IsFresh sdk parts env w fresh)
                    (codes "demo.agent.sender") a (pos 0) m (parts.agent_card agent_b_card) r)),
          )
