-- ===== src/Client/Bodies.antt =====
-- The bodies of requests, as a broker reads them with a JSON reader.
pub mod Sent
use mq.Base.{
  Text, Bytes, codes, text_eq, ltb, ℤ, Bool, Bool-cases, inl, inr, true, false, ◌&&◌, not, Option,
  none, some, [], ◌∷◌, All, ◌≡◌, refl, arith,
}
use mq.Py.Exceptions.{ok}
use mq.Py.Json.{Json, bool, int, str, obj, Fields, end, field, set}
use mq.Py.Utf8.{is_surrogate}
use mq.Py.Scan.RoundTrip.{IsScalar}
use mq.Py.Dumps.{dumps}
use mq.Py.Dumps.Ascii.{utf8_encode-dumps}
use mq.Py.Loads.{loads}
use mq.Py.Loads.Readable.{IsReadable, HasReadable, Differs}
use mq.Py.Loads.RoundTrip.{loads-dumps}
use mq.Client.Types.{of_dict}
use mq.Client.Codec.{encode}
use mq.Client.Messaging.{
  set_optional, FetchOptions, mailbox_create_body, fetch_body, ack_body, query_body,
}
use mq.Client.Agents.{discover_body}

unfoldable pub is_scalar_text : Text → Bool
is_scalar_text [] = true
is_scalar_text (c ∷ t) = ltb c 0x110000 && not (is_surrogate c) && is_scalar_text t

pub literal : (t : Text) → is_scalar_text t ≡ true → All IsScalar t
unfolding is_scalar_text
literal [] h = tt
literal (c ∷ t) h = ground (arith, literal t)

Differs-set :
    (j k : Text) (v : Json) (d : Fields) → text_eq j k ≡ false → Differs j d → Differs j (set k v d)
unfolding set
Differs-set j k v end e h = (e, tt)
Differs-set j k v (field i w d) e h = elim (Bool-cases (text_eq i k)) [
  | inl p ↦ rw p h
  | inr p ↦ rw p (h.0, Differs-set j k v d e h.1)
]

set-HasReadable :
    (k : Text) (v : Json) (d : Fields)
    → All IsScalar k
    → IsReadable v
    → HasReadable d
    → HasReadable (set k v d)
unfolding set
set-HasReadable k v end hk hv h = (hk, hv, tt, tt)
set-HasReadable k v (field j w d) hk hv h = elim (Bool-cases (text_eq j k)) [
  | inl p ↦ rw p (h.0, hv, h.2, h.3)
  | inr p ↦ rw p (h.0, h.1, Differs-set j k v d p h.2, set-HasReadable k v d hk hv h.3)
]

-- An optional argument that has a text that can be read.
abbrev pub OptionalText : Option Text → Type 0
OptionalText none = Unit
OptionalText (some t) = All IsScalar t

set_text-HasReadable :
    (k : Text) (o : Option Text) (d : Fields)
    → is_scalar_text k ≡ true
    → OptionalText o
    → HasReadable d
    → HasReadable (set_optional k str o d)
set_text-HasReadable k none d hk ho h = h
set_text-HasReadable k (some t) d hk ho h = set-HasReadable k (str t) d (literal k hk) ho h

set_int-HasReadable :
    (k : Text) (o : Option ℤ) (d : Fields)
    → is_scalar_text k ≡ true
    → HasReadable d
    → HasReadable (set_optional k int o d)
set_int-HasReadable k none d hk h = h
set_int-HasReadable k (some i) d hk h = set-HasReadable k (int i) d (literal k hk) tt h

pub one-HasReadable :
    (k : Text) (v : Json) → is_scalar_text k ≡ true → IsReadable v → HasReadable (field k v end)
one-HasReadable k v hk hv = (literal k hk, hv, tt, tt)

pub two-HasReadable :
    (k j : Text) (v w : Json)
    → is_scalar_text k ≡ true
    → is_scalar_text j ≡ true
    → text_eq k j ≡ false
    → IsReadable v
    → IsReadable w
    → HasReadable (field k v (field j w end))
two-HasReadable k j v w hk hj e hv hw = (literal k hk, hv, (e, tt), one-HasReadable j w hj hw)

-- The arguments of `fetch` that are texts can be read.
abbrev pub HasTexts : FetchOptions → Type 0
HasTexts o = OptionalText o.group_name × All IsScalar o.deliver

pub fetch_body-HasReadable : (o : FetchOptions) → HasTexts o → HasReadable (fetch_body o)
unfolding fetch_body is_scalar_text text_eq
fetch_body-HasReadable o h = set_int-HasReadable (codes "from_id") o.from_id _ refl (
    set_int-HasReadable (codes "from_time") o.from_time _ refl (
      set_text-HasReadable (codes "group_name") o.group_name _ refl h.0 (
        literal (codes "deliver") refl,
        h.1,
        (refl, (refl, tt)),
        two-HasReadable (codes "force_deliver") (codes "config") (bool o.force_deliver)
            (obj (
              field (codes "num_msgs") (int o.num_msgs)
                (field (codes "max_wait_ms") (int o.max_wait_ms) end)))
            refl refl refl tt
            (two-HasReadable (codes "num_msgs") (codes "max_wait_ms") (int o.num_msgs)
              (int o.max_wait_ms) refl refl refl tt tt),
      )))

pub query_body-HasReadable :
    (key : Option Text) (limit since : Option ℤ)
    → OptionalText key
    → HasReadable (query_body key limit since)
unfolding query_body is_scalar_text
query_body-HasReadable key limit since h = set_int-HasReadable (codes "since") since _ refl (
    set_int-HasReadable (codes "limit") limit _ refl
      (set_text-HasReadable (codes "key") key end refl h tt))

pub ack_body-HasReadable :
    (mail_address group_name : Text) (msg_id : Json)
    → All IsScalar mail_address
    → All IsScalar group_name
    → IsReadable msg_id
    → HasReadable (ack_body mail_address group_name msg_id)
unfolding ack_body is_scalar_text text_eq
ack_body-HasReadable mail_address group_name msg_id hm hg hi = (
  literal (codes "group_name") refl,
  hg,
  (refl, (refl, tt)),
  two-HasReadable (codes "mail_address") (codes "msg_id") (str mail_address) msg_id refl refl refl
      hm hi,
)

pub mailbox_create_body-HasReadable :
    (name : Option Text) (ttl : ℤ) → OptionalText name → HasReadable (mailbox_create_body name ttl)
unfolding mailbox_create_body is_scalar_text
mailbox_create_body-HasReadable name ttl h =
    set_text-HasReadable (codes "name") name _ refl h
      (one-HasReadable (codes "ttl") (int ttl) refl tt)

pub discover_body-HasReadable :
    (text semantic : Option Text) (limit page : ℤ)
    → OptionalText text
    → OptionalText semantic
    → HasReadable (discover_body text semantic limit page)
unfolding discover_body is_scalar_text text_eq
discover_body-HasReadable text semantic limit page ht hs =
    set_text-HasReadable (codes "semantic") semantic _ refl hs (
      set_text-HasReadable (codes "text") text _ refl ht (
        two-HasReadable (codes "limit") (codes "page") (int limit) (int page) refl refl refl tt tt))

-- The bytes that a body is encoded in are read back as that body.
abbrev pub IsReadBack : Fields → Type 0
IsReadBack d = (b : Bytes) × (encode (of_dict d) ≡ ok b) × (loads b ≡ ok (obj d))

pub HasReadable-IsReadBack : (d : Fields) → HasReadable d → IsReadBack d
unfolding encode
HasReadable-IsReadBack d h = (dumps (obj d), utf8_encode-dumps (obj d), loads-dumps (obj d) h)
