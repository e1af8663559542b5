-- ===== src/A2a/Lifecycle/Survival.antt =====
-- What can end the heartbeat of an agent.
use mq.Base.{ℕ, zero, suc}
use mq.Py.Async.{Async, pure}
use mq.Py.Async.OnlyCancelled.{
  IsCancelled, OnlyCancelled, OnlyCancelled-pure, OnlyCancelled-try, OnlyCancelled-bind,
}
use mq.Client.Types.{Env}
use mq.A2a.Types.{Sdk, truthy_text}
use mq.A2a.Lifecycle.{World, on_net, report, count_of, heartbeat, heartbeats}

module _ (sdk : Sdk) {S : Type 0} (env : Env S)
    (sleeps : (ms : ℕ) → OnlyCancelled (env.sleep ms)) where
  OnlyCancelled-on_net :
      {A : Type 0} (m : Async S A) → OnlyCancelled m → OnlyCancelled (on_net {sdk = sdk} m)
  OnlyCancelled-on_net m k = record { at = λ w. k.at w.net }

  heartbeat-OnlyCancelled : OnlyCancelled (heartbeat sdk env)
  unfolding heartbeat
  heartbeat-OnlyCancelled =
      OnlyCancelled-bind _ _ (OnlyCancelled-on_net (env.sleep 30000) (sleeps 30000)) λ _. record {
        at = λ w.
            (OnlyCancelled-try
                (report sdk env w.agent.mq9 (truthy_text w.agent.mailbox)
                  (truthy_text w.agent.agent_name) (count_of sdk env w))
                (λ _. pure tt) (λ _. OnlyCancelled-pure tt)).at
              w.net;
      }

  heartbeats-OnlyCancelled : (n : ℕ) → OnlyCancelled (heartbeats sdk env n)
  unfolding heartbeats
  heartbeats-OnlyCancelled zero = OnlyCancelled-pure tt
  heartbeats-OnlyCancelled (suc n) =
      OnlyCancelled-bind (heartbeat sdk env) _ heartbeat-OnlyCancelled
        λ _. heartbeats-OnlyCancelled n

  -- If `asyncio.sleep` raises nothing but a cancellation, then after any number of rounds the
  -- heartbeat of an agent is still going or was ended by a cancellation: no failing report, lost
  -- connection or reply of the broker ends it.
  pub heartbeats_survive : (n : ℕ) (w : World sdk S) → IsCancelled (heartbeats sdk env n w).0
  heartbeats_survive n w = (heartbeats-OnlyCancelled n).at w
