-- ===== src/A2a/Lifecycle/Tasks.antt =====
-- The background tasks of an agent.
use mq.Base.{ℕ, ◌+◌, ◌<◌, Text, Option, none, some, List, [], ◌∷◌, All, ◌≡◌, refl, ap, ◌∙◌, arith}
use mq.Py.Exceptions.{Result, ok}
use mq.Client.Types.{Env, Mq9Client}
use mq.Client.Agents.{agent_register}
use mq.A2a.Types.{Sdk, truthy_text}
use mq.A2a.Lifecycle.{World, remove, end_task, register, register_at, registration, unregister}

-- Task numbers are given out in order, and none twice.
pub record IsFresh {sdk : Sdk} {S : Type 0} (w : World sdk S) : Type 0 where
  pub below : All (λ k. k < w.next_task) w.running

module _ (sdk : Sdk) {S : Type 0} (env : Env S) where
  -- The state in which the registration of `card` has been accepted.
  pub record Accepts (card : sdk.AgentCard) (w : World sdk S) : Type 0 where
    pub client : Mq9Client S
    pub mailbox : Text
    pub connected : w.agent.mq9 ≡ some client
    pub created : truthy_text w.agent.mailbox ≡ some mailbox
    pub accepted :
        (agent_register env client
          (registration sdk env (record w.agent { agent_card = some card }) mailbox card)
          w.net).0
        ≡ ok tt

  register-register_at :
      (card : sdk.AgentCard) (w : World sdk S) (a : Accepts card w)
      → register sdk env card w ≡ register_at sdk env a.client (some a.mailbox) card w
  unfolding register
  register-register_at card w a = simp (a.connected, a.created)

  -- What a registration that the broker accepts leaves: one more task, which is the agent's
  -- heartbeat.
  abbrev pub registered : sdk.AgentCard → World sdk S → S → World sdk S
  registered card w net = record w {
    agent = record w.agent { agent_card = some card; heartbeat_task = some w.next_task };
    net = net;
    running = w.next_task ∷ w.running;
    next_task = w.next_task + 1;
  }

  pub register_starts :
      (card : sdk.AgentCard) (w : World sdk S)
      → Accepts card w
      → (net : S) × ((register sdk env card w).1 ≡ registered card w net)
  register_starts card w a =
      let body = registration sdk env (record w.agent { agent_card = some card }) a.mailbox card in
      (
        (agent_register env a.client body w.net).1,
        ap (λ (r : Result (Unit {0}) × World sdk S). r.1) (register-register_at card w a)
            ∙ rw a.accepted refl,
      )

  abbrev pub after_end : Option ℕ → List ℕ → List ℕ
  after_end none l = l
  after_end (some k) l = remove k l

  pub running-unregister :
      (w : World sdk S)
      → (unregister sdk env w).1.running ≡ after_end w.agent.heartbeat_task w.running
  unfolding unregister end_task
  running-unregister w = by_task w.agent.heartbeat_task refl
    where
      by_task :
          (o : Option ℕ)
          → w.agent.heartbeat_task ≡ o
          → (unregister sdk env w).1.running ≡ after_end o w.running
      by_task none e = ground (arith, e)
      by_task (some k) e = ground (arith, e)

  remove_fresh : (k : ℕ) (l : List ℕ) → All (λ j. j < k) l → remove k l ≡ l
  unfolding remove
  remove_fresh k [] h = refl
  remove_fresh k (j ∷ l) h = ground (arith, remove_fresh k l h.1, h.0)

  pub remove_first : (k : ℕ) (l : List ℕ) → All (λ j. j < k) l → remove k (k ∷ l) ≡ l
  unfolding remove
  remove_first k l h = ground (arith, remove_fresh k l h)

  pub All-suc : (k : ℕ) (l : List ℕ) → All (λ j. j < k) l → All (λ j. j < k + 1) l
  All-suc k [] h = tt
  All-suc k (j ∷ l) h = (omega (arith, h.0), All-suc k l h.1)

  -- Of an agent whose task numbers are fresh, `unregister` ends the heartbeat that an accepted
  -- `register` has started, and no other task.
  unregister-register :
      (card : sdk.AgentCard) (w : World sdk S)
      → IsFresh w
      → Accepts card w
      → (unregister sdk env (register sdk env card w).1).1.running ≡ w.running
  unregister-register card w fresh a =
      let (net, p) = register_starts card w a in
      running-unregister _
      ∙ ap (λ (v : World sdk S). after_end v.agent.heartbeat_task v.running) p
      ∙ remove_first w.next_task w.running fresh.below

  -- For an agent whose task numbers are fresh: after two accepted registrations, `unregister` ends
  -- the second heartbeat only. The first one runs on.
  pub register_twice_leaks :
      (card card' : sdk.AgentCard) (w : World sdk S)
      → IsFresh w
      → Accepts card w
      → Accepts card' (register sdk env card w).1
      → (unregister sdk env (register sdk env card' (register sdk env card w).1).1).1.running
        ≡ w.next_task ∷ w.running
  register_twice_leaks card card' w fresh a a' =
      let (net, p) = register_starts card w a in
      let (net', q) = register_starts card' (register sdk env card w).1 a' in
      running-unregister _
      ∙ ap (λ (v : World sdk S). after_end v.agent.heartbeat_task v.running)
          (q ∙ ap (λ (v : World sdk S). registered card' v net') p)
      ∙ remove_first (w.next_task + 1) (w.next_task ∷ w.running)
          (omega arith, All-suc w.next_task w.running fresh.below)
