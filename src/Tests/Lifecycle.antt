-- ===== src/Tests/Lifecycle.antt =====
-- The theorems about the background tasks of an agent, on the small network.
use mq.Base.{Text, codes, text_eq, ℤ, pos, some, [], ◌∷◌, ◌++◌, ◌≡◌, refl}
use mq.Py.Exceptions.{ok}
use mq.Py.Json.{str, get, truthy}
use mq.Client.Codec.{check_response, decode_response}
use mq.Client.Messaging.{mailbox_create, mailbox_create_body}
use mq.Py.Async.OnlyCancelled.{IsCancelled}
use mq.A2a.Lifecycle.Survival.{heartbeats_survive}
use mq.A2a.Lifecycle.{heartbeats, World, create_mailbox, register, unregister, close}
use mq.A2a.Lifecycle.Sessions.{session_leaves_no_task, close_leaves_heartbeat, create_twice_leaks}
use mq.Tests.World.{Net, env, client}
use mq.Tests.A2a.{sdk, world, world-IsFresh, register_accepted}
use mq.Tests.Store.{encodes}

mailbox_created :
    (name : Text) (ttl : ℤ) (s : Net)
    → (mailbox_create env client (some name) ttl s).0 ≡ ok (str (codes "box"))
unfolding mailbox_create mq.Client.Connection.request decode_response check_response get truthy
    text_eq
mailbox_created name ttl s = rw (encodes (mailbox_create_body (some name) ttl))

-- On the small network every mailbox is created, whatever the agent has done before.
mailbox_made :
    (name : Text) (ttl : ℤ) (w : World sdk Net)
    → w.agent.mq9 ≡ some client
    → (create_mailbox sdk env name ttl w).0 ≡ ok (codes "box")
unfolding create_mailbox
mailbox_made name ttl w e =
    rw (e, mailbox_created name ttl w.net, mailbox_created (name ++ codes ".tasks") ttl)

mailbox_kept :
    (name : Text) (ttl : ℤ) (w : World sdk Net)
    → w.agent.mq9 ≡ some client
    → ((create_mailbox sdk env name ttl w).1.agent.mq9 ≡ some client)
      × ((create_mailbox sdk env name ttl w).1.agent.mailbox ≡ some (codes "box"))
unfolding create_mailbox
mailbox_kept name ttl w e =
    rw (e, mailbox_created name ttl w.net, mailbox_created (name ++ codes ".tasks") ttl)
      (refl, refl)

registration_made :
    (w : World sdk Net)
    → (w.agent.mq9 ≡ some client) × (w.agent.mailbox ≡ some (codes "box"))
    → (register sdk env (codes "card") w).0 ≡ ok tt
unfolding register
registration_made w e = rw (e.0, e.1, register_accepted)

session_leaves_no_task_example :
    (close sdk env
      (unregister sdk env
        (register sdk env
          (codes "card")
          (create_mailbox sdk env (codes "a") (pos 0) world).1).1).1).1.running
    ≡ 0 ∷ []
session_leaves_no_task_example =
    session_leaves_no_task sdk env world world-IsFresh (codes "a") (codes "box") (pos 0)
      (mailbox_made (codes "a") (pos 0) world refl) (codes "card")
      (registration_made _ (mailbox_kept (codes "a") (pos 0) world refl))

close_leaves_heartbeat_example :
    (close sdk env
      (register sdk env
        (codes "card")
        (create_mailbox sdk env (codes "a") (pos 0) world).1).1).1.running
    ≡ 2 ∷ 0 ∷ []
close_leaves_heartbeat_example =
    close_leaves_heartbeat sdk env world world-IsFresh (codes "a") (codes "box") (pos 0)
      (mailbox_made (codes "a") (pos 0) world refl) (codes "card")
      (registration_made _ (mailbox_kept (codes "a") (pos 0) world refl))

create_twice_leaks_example :
    (close sdk env
      (create_mailbox sdk env
        (codes "b")
        (pos 0)
        (create_mailbox sdk env (codes "a") (pos 0) world).1).1).1.running
    ≡ 1 ∷ 0 ∷ []
create_twice_leaks_example =
    create_twice_leaks sdk env world world-IsFresh (codes "a") (codes "box") (pos 0)
      (mailbox_made (codes "a") (pos 0) world refl) (codes "b") (codes "box") (pos 0)
      (mailbox_made (codes "b") (pos 0) _ (mailbox_kept (codes "a") (pos 0) world refl).0)

heartbeats_survive_example : IsCancelled (heartbeats sdk env 3 world).0
heartbeats_survive_example = heartbeats_survive sdk env (λ ms. record { at = λ s. tt }) 3 world
