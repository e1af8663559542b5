-- ===== src/Tests/Requests.antt =====
-- The theorems about searches, subjects and clients that are not connected at concrete inputs.
use mq.Base.{codes, pos, Text, ◌≡◌, refl}
use mq.Client.Types.{Mq9Client}
use mq.Client.Connection.{new_client}
use mq.Client.Subjects.Routing.{subject_msg_delete-injective}
use mq.Tests.World.{Net}

abbrev unconnected : Mq9Client Net
unconnected = new_client (codes "nats://localhost:4222") 5000

subject_msg_delete-injective_example : (codes "task.q" ≡ codes "task.q") × (pos 7 ≡ pos 7)
subject_msg_delete-injective_example =
    subject_msg_delete-injective (codes "task.q") (codes "task.q") (pos 7) (pos 7) refl
