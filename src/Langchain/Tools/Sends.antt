-- ===== src/Langchain/Tools/Sends.antt =====
-- What a tool's reader is shown of the messages that were sent to it.
use mq.Base.{Text, List, ◌∷◌, map, All, ◌≡◌}
use mq.Py.Exceptions.{ok}
use mq.Py.Text.{join}
use mq.Client.Types.{Env}
use mq.Client.Messaging.{fetch}
use mq.Langchain.Inputs.{FetchMessagesInput}
use mq.Langchain.Session.{with_client}
use mq.Langchain.Show.{newline}
use mq.Langchain.Show.Lines.{Sent, IsPlain, as_message, line_of, message_lines-plain}
use mq.Langchain.Tools.{fetch_messages_tool, fetch_options, fetch_header}

module _ {S : Type 0} (env : Env S) (server : Text) where
  -- When the fetch returns texts that are no JSON, the fetch tool shows under its header one line
  -- for each of them, in their order, with its id, its priority and the very text that was sent.
  pub fetch_shows_texts :
      (i : FetchMessagesInput) (m : Sent) (ms : List Sent) (s : S)
      → All (IsPlain env.loads env.format) (m ∷ ms)
      → (with_client env server (λ client. fetch env client i.mail_address (fetch_options i)) s).0
        ≡ ok (map as_message (m ∷ ms))
      → (fetch_messages_tool env server i s).0
        ≡ ok (
            join newline (
              fetch_header env server i.mail_address (map as_message (m ∷ ms))
              ∷ map (line_of env.loads env.format) (m ∷ ms)))
  unfolding fetch_messages_tool
  fetch_shows_texts i m ms s plain fetched = rw fetched (
      message_lines-plain env.loads env.format
        (fetch_header env server i.mail_address (map as_message (m ∷ ms))) (m ∷ ms) plain)
