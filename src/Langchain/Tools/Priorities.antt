-- ===== src/Langchain/Tools/Priorities.antt =====
-- What becomes of the priority that a language model asks for.
use mq.Base.{Text, text_eq, text_eq_iff, codes, false, ◌≡◌, ◌≢◌, refl, arith}
use mq.Client.Types.{Env, Priority, normal, urgent, critical, value}
use mq.Client.Codec.{priority_of}
use mq.Langchain.Tools.{parse_priority, send_message_tool}

text_eq-ne : (s t : Text) → s ≢ t → text_eq s t ≡ false
text_eq-ne s t h = ground (arith, text_eq_iff s t)

parse_priority-value : (p : Priority) → parse_priority (value p) ≡ p
unfolding parse_priority priority_of text_eq
parse_priority-value normal = refl
parse_priority-value urgent = refl
parse_priority-value critical = refl

pub parse_priority-unknown : (t : Text) → ((p : Priority) → t ≢ value p) → parse_priority t ≡ normal
unfolding parse_priority priority_of
parse_priority-unknown t h =
    rw (text_eq-ne t _ (h normal), text_eq-ne t _ (h urgent), text_eq-ne t _ (h critical))

-- A message that is sent with a text that names no priority is sent, and reported, as one that is
-- sent with "normal".
pub unknown_priority :
    {S : Type 0} (env : Env S) (server mail_address content t : Text) (s : S)
    → ((p : Priority) → t ≢ value p)
    → send_message_tool env server
        (record { mail_address = mail_address; content = content; priority = t })
        s
      ≡ send_message_tool env server
          (record { mail_address = mail_address; content = content; priority = codes "normal" })
          s
unfolding send_message_tool
unknown_priority env server mail_address content t s h =
    rw (parse_priority-unknown t h, parse_priority-value normal)
