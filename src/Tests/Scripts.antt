-- ===== src/Tests/Scripts.antt =====
-- The theorems about the other demos at concrete inputs.
use mq.Base.{false, ℕ, Text, codes, pos, [], ◌∷◌, ◌≡◌, refl}
use mq.Py.Exceptions.{ok}
use mq.Py.Json.{obj}
use mq.Client.Types.{Env}
use mq.Tests.Langchain.{lines_with, lines-Answers}
use mq.Py.Text.{join}
use mq.Base.Decimal.{decimal, digits}
use mq.Client.Types.{normal}
use mq.Py.Json.{int}
use mq.Demo.Tools.{find_ids, step, ack_found}
use mq.Langchain.Show.{content, message_line, message_lines}
use mq.Langchain.Tools.{ack_messages_tool}
use mq.Client.Types.{Message, decoded}
use mq.Py.Exceptions.{map_result}
use mq.Demo.Tools.Acks.{IsShown, ack_found-last}
use mq.Demo.Graph.{State, poll_node, run_nodes}
use mq.Demo.Graph.Replies.{Gives, Polls, graph_replies}
use mq.Demo.Closes.{demos_close}
use mq.Langchain.Session.Watched.{watched}
use mq.Demo.Messages
use mq.Demo.Registry
use mq.Py.Async.{pure, ◌>>=◌}
use mq.Py.Async.Keeps.{Keeps-pure}
use mq.Tests.Broker.{reply}

abbrev answering : Env ℕ
answering = lines_with (λ b. ok (obj reply))

demos_close_example :
    ((mq.Demo.Messages.main
        (watched answering)
        (codes "nats://localhost:4222")
        2
        (pure tt)
        (3, 5)).1.1
      ≡ 5)
    × ((mq.Demo.Registry.main (watched answering) (codes "nats://localhost:4222") (3, 5)).1.1 ≡ 5)
demos_close_example =
    demos_close answering (lines-Answers answering.loads) (codes "nats://localhost:4222") 2
      (pure tt) 3 5 (λ m. Keeps-pure tt)

-- Every value is printed as 7.
abbrev sevens : Env ℕ
sevens = record answering { format = λ v. codes "7" }

seven_printed : codes "7" ≡ decimal 7
unfolding decimal digits
seven_printed = refl

abbrev told : Message
told = record {
  msg_id = int (pos 7);
  payload = decoded (codes "{}");
  priority = normal;
  create_time = int (pos 1);
}

told_shown : content sevens.loads sevens.format told.payload ≡ ok (codes "7")
unfolding content
told_shown = refl

abbrev told-IsShown : IsShown sevens told
told-IsShown = record {
  text = codes "7";
  shown = told_shown;
  number_of = 7;
  printed = seven_printed;
}

abbrev two_lines : Text
two_lines =
    codes "2:\n  msg_id=7  priority=normal  content=7\n  msg_id=7  priority=normal  content=7"

told_lines : message_lines sevens.loads sevens.format (codes "2:") (told ∷ told ∷ []) ≡ ok two_lines
unfolding message_lines message_line map_result content join
told_lines = refl

ack_found-last_example :
    ack_found sevens (codes "nats://localhost:4222") (codes "box") (find_ids two_lines) 3
    ≡ (do
      _ ←
          ack_messages_tool sevens
            (codes "nats://localhost:4222")
            (record { mail_address = codes "box"; group_name = codes "langchain"; msg_id = pos 7 })
      pure tt)
        3
unfolding find_ids step
ack_found-last_example =
    ack_found-last sevens (codes "nats://localhost:4222") (codes "box") (codes "2:") (told ∷ [])
      told told-IsShown two_lines 3 told_lines

abbrev polling : State
polling = record { reply_address = codes "box"; messages = []; done = false }

graph_replies_example :
    Gives
      (Polls answering (codes "nats://localhost:4222") (codes "box"))
      (run_nodes answering (codes "nats://localhost:4222") 3 poll_node polling 0).0
graph_replies_example = graph_replies answering (codes "nats://localhost:4222") 3 polling 0
