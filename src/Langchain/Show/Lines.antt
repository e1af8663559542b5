-- ===== src/Langchain/Show/Lines.antt =====
-- The lines that a tool shows for messages whose content was sent as text.
use mq.Base.{Text, Bytes, codes, List, [], ◌∷◌, ◌++◌, map, All, ◌≡◌, refl, ap}
use mq.Py.Exceptions.{Exn, Result, ok, raise, map_result}
use mq.Py.Json.{Json}
use mq.Py.Text.{join}
use mq.Py.Utf8.{utf8_encode}
use mq.Py.Utf8.Decode.RoundTrip.{IsCodePoint, decode_replace-utf8_encode}
use mq.Client.Types.{Priority, Message, decoded, value}
use mq.Langchain.Show.{newline, content, message_line, message_lines}

-- A text on its way: its id and time at the broker, its priority, and its bytes.
pub record Sent : Type 0 where
  pub id : Json
  pub text : Text
  pub priority : Priority
  pub created : Json
  pub bytes : Bytes

abbrev pub as_message : Sent → Message
as_message m = record {
  msg_id = m.id;
  payload = decoded m.bytes;
  priority = m.priority;
  create_time = m.created;
}

module _ (loads : Bytes → Result Json) (format : Json → Text) where
  -- The bytes are those of the text, which happens to be no JSON.
  pub record IsPlain (m : Sent) : Type 0 where
    pub points : All IsCodePoint m.text
    pub encoded : utf8_encode m.text ≡ ok m.bytes
    pub error : Exn
    pub no_json : loads m.bytes ≡ raise error

  abbrev pub line_of : Sent → Text
  line_of m =
      codes "  msg_id="
      ++ (format m.id
          ++ (codes "  priority=" ++ (value m.priority ++ (codes "  content=" ++ m.text))))

  content-plain : (m : Sent) → IsPlain m → content loads format (decoded m.bytes) ≡ ok m.text
  unfolding content
  content-plain m h =
      rw (h.no_json, content) (ap ok (decode_replace-utf8_encode m.text m.bytes h.points h.encoded))

  message_line-plain :
      (m : Sent) → IsPlain m → message_line loads format (as_message m) ≡ ok (line_of m)
  unfolding message_line
  message_line-plain m h = rw (content-plain m h)

  lines-plain :
      (ms : List Sent)
      → All IsPlain ms
      → map_result (message_line loads format) (map as_message ms) ≡ ok (map line_of ms)
  unfolding map_result
  lines-plain [] h = refl
  lines-plain (m ∷ ms) h = rw (message_line-plain m h.0, lines-plain ms h.1)

  pub message_lines-plain :
      (header : Text) (ms : List Sent)
      → All IsPlain ms
      → message_lines loads format header (map as_message ms)
        ≡ ok (join newline (header ∷ map line_of ms))
  unfolding message_lines
  message_lines-plain header ms h = rw (lines-plain ms h)
