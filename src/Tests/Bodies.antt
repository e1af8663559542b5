-- ===== src/Tests/Bodies.antt =====
-- The theorem about the requests of the client at concrete inputs.
use mq.Base.{codes, pos, none, some, refl}
use mq.Py.Json.{int}
use mq.Client.Subjects.{
  subject_mailbox_create, subject_msg_fetch, subject_msg_ack, subject_msg_query,
  subject_agent_unregister, subject_agent_discover,
}
use mq.Client.Messaging.{mailbox_create, fetch, ack, query, FetchOptions, default_fetch}
use mq.Client.Agents.{agent_unregister, agent_discover}
use mq.Client.Bodies.{literal, is_scalar_text}
use mq.Client.Bodies.Sent.{
  Requests, fetch_entries, query_entries, ack_entries, create_entries, discover_entries,
  unregister_entries, bodies_read,
}
use mq.Tests.World.{env, client}

abbrev options : FetchOptions
options = record default_fetch { group_name = some (codes "workers"); from_id = some (pos 3) }

bodies_read_example :
    Requests env client
      (fetch env client (codes "task.q") options)
      (subject_msg_fetch (codes "task.q"))
      (fetch_entries options)
    × Requests env client
        (query env client (codes "task.q") (some (codes "status")) none (some (pos 5)))
        (subject_msg_query (codes "task.q"))
        (query_entries (some (codes "status")) none (some (pos 5)))
    × Requests env client
        (ack env client (codes "task.q") (codes "workers") (int (pos 42)))
        (subject_msg_ack (codes "task.q"))
        (ack_entries (codes "task.q") (codes "workers") (int (pos 42)))
    × Requests env client
        (mailbox_create env client none (pos 3600))
        subject_mailbox_create
        (create_entries none (pos 3600))
    × Requests env client
        (agent_discover env client none (some (codes "translate, please")) (pos 10) (pos 1))
        subject_agent_discover
        (discover_entries none (some (codes "translate, please")) (pos 10) (pos 1))
    × Requests env client
        (agent_unregister env client (codes "agent"))
        subject_agent_unregister
        (unregister_entries (codes "agent"))
unfolding is_scalar_text
bodies_read_example =
    bodies_read env client (codes "task.q") (codes "workers") (codes "agent") options
      (some (codes "status")) none none (some (codes "translate, please")) none (some (pos 5))
      (int (pos 42)) (pos 3600) (pos 10) (pos 1)
      (literal (codes "workers") refl, literal (codes "latest") refl)
      (literal (codes "status") refl) tt tt (literal (codes "translate, please") refl)
      (literal (codes "task.q") refl) (literal (codes "workers") refl)
      (literal (codes "agent") refl) tt
