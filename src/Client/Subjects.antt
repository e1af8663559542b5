-- ===== src/Client/Subjects.antt =====
-- The subjects of python/mq9/client.py.
pub mod Routing
use mq.Base.{Text, codes, ◌∷◌, ◌++◌}

abbrev pub subject_prefix : Text
subject_prefix = codes "$mq9.AI"

abbrev pub subject_mailbox_create : Text
subject_mailbox_create = subject_prefix ++ codes ".MAILBOX.CREATE"

abbrev pub subject_msg_send : Text → Text
subject_msg_send mail_address = subject_prefix ++ (codes ".MSG.SEND." ++ mail_address)

abbrev pub subject_msg_fetch : Text → Text
subject_msg_fetch mail_address = subject_prefix ++ (codes ".MSG.FETCH." ++ mail_address)

abbrev pub subject_msg_ack : Text → Text
subject_msg_ack mail_address = subject_prefix ++ (codes ".MSG.ACK." ++ mail_address)

abbrev pub subject_msg_query : Text → Text
subject_msg_query mail_address = subject_prefix ++ (codes ".MSG.QUERY." ++ mail_address)

-- The text of `msg_id` is the second argument.
abbrev pub subject_msg_delete : Text → Text → Text
subject_msg_delete mail_address msg_id =
    subject_prefix ++ (codes ".MSG.DELETE." ++ (mail_address ++ (b'.' ∷ msg_id)))

abbrev pub subject_agent_register : Text
subject_agent_register = subject_prefix ++ codes ".AGENT.REGISTER"

abbrev pub subject_agent_unregister : Text
subject_agent_unregister = subject_prefix ++ codes ".AGENT.UNREGISTER"

abbrev pub subject_agent_report : Text
subject_agent_report = subject_prefix ++ codes ".AGENT.REPORT"

abbrev pub subject_agent_discover : Text
subject_agent_discover = subject_prefix ++ codes ".AGENT.DISCOVER"
