-- ===== src/A2a/Lifecycle/Ordering.antt =====
-- In which order the operations of the life cycle are of use.
use mq.Base.{Text, codes, ℤ, none, some, ◌≡◌}
use mq.Py.Exceptions.{ok, raise, runtime_error}
use mq.Client.Types.{Nats, Env}
use mq.Client.Connection
use mq.Client.Connection.{new_client}
use mq.A2a.Types.{Sdk}
use mq.A2a.Lifecycle.{World, connect, create_mailbox, register}

module _ (sdk : Sdk) {S : Type 0} (env : Env S) where
  -- Before `connect`, creating a mailbox and registering raise a RuntimeError, and neither changes
  -- the agent, the broker or the background tasks.
  not_connected_first :
      (w : World sdk S) (name : Text) (ttl : ℤ) (card : sdk.AgentCard)
      → w.agent.mq9 ≡ none
      → (create_mailbox sdk env name ttl w
          ≡ (raise (runtime_error (codes "Not connected — call connect() first.")), w))
        × (register sdk env card w
            ≡ (raise (runtime_error (codes "Not connected — call connect() first.")), w))
  unfolding create_mailbox register
  not_connected_first w name ttl card e = (simp e, simp e)

  -- An agent that `connect` has connected talks to the broker with the time-out of a new client, 5
  -- seconds, whatever `request_timeout` it was made with.
  connect_timeout :
      (w : World sdk S) (nc : Nats S)
      → (env.connect w.agent.server 5 2000 w.net).0 ≡ ok nc
      → (connect sdk env w).1.agent.mq9
        ≡ some (record (new_client w.agent.server 5000) { nc = some nc })
  unfolding connect Connection.connect
  connect_timeout w nc e = rw e
