-- ===== src/Demo/Translator/Tasks.antt =====
-- The background tasks of the demo's translator.
use mq.Base.{Text, codes, pos, ◌≡◌, refl, ◌∙◌, arith}
use mq.Py.Exceptions.{ok}
use mq.Py.Async.{Async}
use mq.Client.Types.{Env}
use mq.A2a.Types.{Sdk}
use mq.A2a.Lifecycle.{World, connect, create_mailbox, register, unregister, on_net}
use mq.A2a.Lifecycle.Tasks.{IsFresh}
use mq.A2a.Lifecycle.Sessions.{both_end}
use mq.Demo.Cards.{agent_a_card}
use mq.Demo.Translator.{Parts, run_agent}

module _ (sdk : Sdk) (parts : Parts sdk) {S : Type 0} (env : Env S) where
  pub tasks-connect :
      (w : World sdk S)
      → ((connect sdk env w).1.running ≡ w.running)
        × ((connect sdk env w).1.next_task ≡ w.next_task)
  unfolding connect
  tasks-connect w = ground arith

  pub connect-IsFresh : (w : World sdk S) → IsFresh w → IsFresh (connect sdk env w).1
  connect-IsFresh w h = record { below = rw ((tasks-connect w).0, (tasks-connect w).1) h.below }

  -- The world before and after each of the calls that start the script.
  abbrev pub connected : World sdk S → World sdk S
  connected w = (connect sdk env w).1

  abbrev pub with_mailbox : World sdk S → World sdk S
  with_mailbox w = (create_mailbox sdk env (codes "demo.agent.translator") (pos 0) (connected w)).1

  abbrev pub registered : World sdk S → World sdk S
  registered w = (register sdk env (parts.agent_card agent_a_card) (with_mailbox w)).1

  -- For an agent whose task numbers are fresh: once the translator is connected, has its mailbox
  -- and is registered, the script leaves no background task of its own, whatever ends its waiting,
  -- provided that `unregister`, which waits for the broker, is not cancelled itself.
  pub run_agent_leaves_no_task :
      (wait : Async S (Unit {0})) (w : World sdk S) (a : Text)
      → IsFresh w
      → (connect sdk env w).0 ≡ ok tt
      → (create_mailbox sdk env (codes "demo.agent.translator") (pos 0) (connected w)).0 ≡ ok a
      → (register sdk env (parts.agent_card agent_a_card) (with_mailbox w)).0 ≡ ok tt
      → (unregister sdk env (on_net wait (registered w)).1).0 ≡ ok tt
      → (run_agent sdk parts env wait w).1.running ≡ w.running
  unfolding run_agent
  run_agent_leaves_no_task wait w a fresh c m r u =
      rw (c, m, r, u)
        (both_end sdk env (connected w) (connect-IsFresh w fresh) (codes "demo.agent.translator") a
            (pos 0) m (parts.agent_card agent_a_card) r (on_net wait (registered w)).1 refl refl
          ∙ (tasks-connect w).0)
