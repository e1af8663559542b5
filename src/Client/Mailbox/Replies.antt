-- ===== src/Client/Mailbox/Replies.antt =====
-- That the replies of a broker are read back from their JSON text.
use mq.Base.{ℕ, Bytes, codes, text_eq, List, [], ◌∷◌, map, All, refl, arith}
use mq.Py.Json.{str, arr, of_list}
use mq.Py.Scan.RoundTrip.{IsScalar}
use mq.Py.Base64.{letter, b64encode}
use mq.Py.Loads.Readable.{IsReadable, AreReadable, HasReadable}
use mq.Client.Types.{Priority, normal, urgent, critical, value}
use mq.Client.Codec.RoundTrip.{Stored, wire_item, wire_reply}
use mq.Client.Bodies.{literal, is_scalar_text, two-HasReadable}

letter-IsScalar : (v : ℕ) → IsScalar (letter v)
unfolding letter
letter-IsScalar v = ground arith

b64encode-IsScalar : (b : Bytes) → All IsScalar (b64encode b)
unfolding b64encode
b64encode-IsScalar [] = tt
b64encode-IsScalar (a ∷ []) =
    (letter-IsScalar _, (letter-IsScalar _, literal (codes "==") (unfold is_scalar_text in refl)))
b64encode-IsScalar (a ∷ b ∷ []) = (
  letter-IsScalar _,
  (letter-IsScalar _, (letter-IsScalar _, literal (codes "=") (unfold is_scalar_text in refl))),
)
b64encode-IsScalar (a ∷ b ∷ c ∷ r) = (
  letter-IsScalar _,
  (letter-IsScalar _, (letter-IsScalar _, (letter-IsScalar _, b64encode-IsScalar r))),
)

value-IsScalar : (p : Priority) → All IsScalar (value p)
unfolding is_scalar_text
value-IsScalar normal = literal (value normal) refl
value-IsScalar urgent = literal (value urgent) refl
value-IsScalar critical = literal (value critical) refl

-- The id and the time of a message can be read back.
abbrev pub HasReadableId : Stored → Type 0
HasReadableId m = IsReadable m.id × IsReadable m.created

wire_item-IsReadable : (m : Stored) → HasReadableId m → IsReadable (wire_item m)
unfolding wire_item is_scalar_text text_eq
wire_item-IsReadable m h = (
  literal (codes "msg_id") refl,
  h.0,
  (refl, (refl, (refl, tt))),
  (
    literal (codes "payload") refl,
    b64encode-IsScalar m.bytes,
    (refl, (refl, tt)),
    two-HasReadable (codes "priority") (codes "create_time") (str (value m.priority)) m.created refl
        refl refl (value-IsScalar m.priority) h.1,
  ),
)

items-AreReadable :
    (ms : List Stored) → All HasReadableId ms → AreReadable (of_list (map wire_item ms))
items-AreReadable [] h = tt
items-AreReadable (m ∷ ms) h = (wire_item-IsReadable m h.0, items-AreReadable ms h.1)

pub wire_reply-IsReadable : (ms : List Stored) → All HasReadableId ms → HasReadable (wire_reply ms)
unfolding wire_reply is_scalar_text text_eq
wire_reply-IsReadable ms h =
    two-HasReadable (codes "error") (codes "messages") (str []) (arr (of_list (map wire_item ms)))
      refl refl refl tt (items-AreReadable ms h)
