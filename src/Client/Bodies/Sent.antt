-- ===== src/Client/Bodies/Sent.antt =====
-- The request of an operation of the client, as a broker with a JSON reader finds it on the wire.
use mq.Base.{
  Text, codes, text_eq, ℤ, Option, none, some, List, [], ◌∷◌, All, ◌≡◌, refl, arith, if◌then◌else◌,
}
use mq.Py.Exceptions.{ok}
use mq.Py.Json.{Json, bool, int, str, obj, Fields, end, field, get, set}
use mq.Py.Async.{Async}
use mq.Py.Scan.RoundTrip.{IsScalar}
use mq.Py.Loads.{loads}
use mq.Py.Loads.Readable.{IsReadable}
use mq.Client.Types.{Env, Mq9Client}
use mq.Client.Subjects.{
  subject_mailbox_create, subject_msg_fetch, subject_msg_ack, subject_msg_query,
  subject_agent_unregister, subject_agent_discover,
}
use mq.Client.Connection.{request}
use mq.Client.Messaging.{
  mailbox_create, fetch, ack, query, FetchOptions, mailbox_create_body, fetch_body, ack_body,
  query_body,
}
use mq.Client.Agents.{agent_unregister, agent_discover, discover_body}
use mq.Client.Bodies.{
  is_scalar_text, OptionalText, HasTexts, one-HasReadable, fetch_body-HasReadable,
  query_body-HasReadable, ack_body-HasReadable, mailbox_create_body-HasReadable,
  discover_body-HasReadable, HasReadable-IsReadBack,
}

-- The keys that a request may have, with the value of each that is there.
abbrev pub Entries : Type 0
Entries = List (Text × Option Json)

unfoldable pub wanted : Entries → Text → Option Json
wanted [] k = none
wanted ((j, none) ∷ es) k = wanted es k
wanted ((j, some v) ∷ es) k = if text_eq j k then some v else wanted es k

-- The dict has these keys and values, and no others.
abbrev pub Says : Fields → Entries → Type 0
Says d es = (k : Text) → get k d ≡ wanted es k

abbrev pub text_value : Option Text → Option Json
text_value none = none
text_value (some t) = some (str t)

abbrev pub int_value : Option ℤ → Option Json
int_value none = none
int_value (some i) = some (int i)

abbrev pub fetch_entries : FetchOptions → Entries
fetch_entries o =
    (codes "deliver", some (str o.deliver))
    ∷ (codes "force_deliver", some (bool o.force_deliver))
    ∷ (
      codes "config",
      some (
          obj (
            field (codes "num_msgs") (int o.num_msgs)
              (field (codes "max_wait_ms") (int o.max_wait_ms) end))),
    )
    ∷ (codes "group_name", text_value o.group_name)
    ∷ (codes "from_time", int_value o.from_time)
    ∷ (codes "from_id", int_value o.from_id)
    ∷ []

fetch_body-Says : (o : FetchOptions) → Says (fetch_body o) (fetch_entries o)
unfolding fetch_body get set text_eq wanted
fetch_body-Says o = by_options o.group_name o.from_time o.from_id
  where
    by_options :
        (g : Option Text) (t i : Option ℤ)
        → Says
            (fetch_body (record o { group_name = g; from_time = t; from_id = i }))
            (fetch_entries (record o { group_name = g; from_time = t; from_id = i }))
    by_options none none none k = refl
    by_options none none (some i) k = refl
    by_options none (some t) none k = refl
    by_options none (some t) (some i) k = refl
    by_options (some g) none none k = refl
    by_options (some g) none (some i) k = refl
    by_options (some g) (some t) none k = refl
    by_options (some g) (some t) (some i) k = refl

abbrev pub query_entries : Option Text → Option ℤ → Option ℤ → Entries
query_entries key limit since =
    (codes "key", text_value key)
    ∷ (codes "limit", int_value limit)
    ∷ (codes "since", int_value since)
    ∷ []

query_body-Says :
    (key : Option Text) (limit since : Option ℤ)
    → Says (query_body key limit since) (query_entries key limit since)
unfolding query_body get set text_eq wanted
query_body-Says none none none k = refl
query_body-Says none none (some s) k = refl
query_body-Says none (some l) none k = refl
query_body-Says none (some l) (some s) k = refl
query_body-Says (some t) none none k = refl
query_body-Says (some t) none (some s) k = refl
query_body-Says (some t) (some l) none k = refl
query_body-Says (some t) (some l) (some s) k = refl

abbrev pub discover_entries : Option Text → Option Text → ℤ → ℤ → Entries
discover_entries text semantic limit page =
    (codes "limit", some (int limit))
    ∷ (codes "page", some (int page))
    ∷ (codes "text", text_value text)
    ∷ (codes "semantic", text_value semantic)
    ∷ []

discover_body-Says :
    (text semantic : Option Text) (limit page : ℤ)
    → Says (discover_body text semantic limit page) (discover_entries text semantic limit page)
unfolding discover_body get set text_eq wanted
discover_body-Says none none limit page k = refl
discover_body-Says none (some s) limit page k = refl
discover_body-Says (some t) none limit page k = refl
discover_body-Says (some t) (some s) limit page k = refl

abbrev pub ack_entries : Text → Text → Json → Entries
ack_entries mail_address group_name msg_id =
    (codes "group_name", some (str group_name))
    ∷ (codes "mail_address", some (str mail_address))
    ∷ (codes "msg_id", some msg_id)
    ∷ []

abbrev pub create_entries : Option Text → ℤ → Entries
create_entries name ttl = (codes "ttl", some (int ttl)) ∷ (codes "name", text_value name) ∷ []

create_body-Says :
    (name : Option Text) (ttl : ℤ) → Says (mailbox_create_body name ttl) (create_entries name ttl)
unfolding mailbox_create_body get set text_eq wanted
create_body-Says none ttl k = refl
create_body-Says (some n) ttl k = refl

abbrev pub unregister_entries : Text → Entries
unregister_entries mailbox = (codes "mailbox", some (str mailbox)) ∷ []

ack_body-Says :
    (mail_address group_name : Text) (msg_id : Json)
    → Says (ack_body mail_address group_name msg_id) (ack_entries mail_address group_name msg_id)
unfolding ack_body get wanted
ack_body-Says mail_address group_name msg_id k = refl

unregister_body-Says :
    (mailbox : Text) → Says (field (codes "mailbox") (str mailbox) end) (unregister_entries mailbox)
unfolding get wanted
unregister_body-Says mailbox k = refl

module _ {S : Type 0} (env : Env S) (c : Mq9Client S) where
  -- All that an operation does outside the client is one request on the subject, with bytes that a
  -- JSON reader reads as a dict of these entries.
  abbrev pub Requests : {A : Type 0} → Async S A → Text → Entries → Type 0
  Requests m subject es =
      (b : mq.Base.Bytes) × (d : Fields) × (loads b ≡ ok (obj d))
      × Says d es
      × ((s : S) → (m s).1 ≡ (request env c subject b s).1)

  fetch-Requests :
      (a : Text) (o : FetchOptions)
      → HasTexts o
      → Requests (fetch env c a o) (subject_msg_fetch a) (fetch_entries o)
  unfolding fetch
  fetch-Requests a o h =
      let (b, e, p) = HasReadable-IsReadBack (fetch_body o) (fetch_body-HasReadable o h) in
      (b, fetch_body o, p, fetch_body-Says o, λ s. rw e (ground (arith)))

  query-Requests :
      (a : Text) (key : Option Text) (limit since : Option ℤ)
      → OptionalText key
      → Requests
          (query env c a key limit since)
          (subject_msg_query a)
          (query_entries key limit since)
  unfolding query
  query-Requests a key limit since h =
      let d = query_body key limit since in
      let (b, e, p) = HasReadable-IsReadBack d (query_body-HasReadable key limit since h) in
      (b, d, p, query_body-Says key limit since, λ s. rw e (ground (arith)))

  ack-Requests :
      (a g : Text) (i : Json)
      → All IsScalar a
      → All IsScalar g
      → IsReadable i
      → Requests (ack env c a g i) (subject_msg_ack a) (ack_entries a g i)
  unfolding ack
  ack-Requests a g i ha hg hi =
      let (b, e, p) =
        HasReadable-IsReadBack (ack_body a g i) (ack_body-HasReadable a g i ha hg hi) in
      (b, ack_body a g i, p, ack_body-Says a g i, λ s. rw e (ground (arith)))

  create-Requests :
      (name : Option Text) (ttl : ℤ)
      → OptionalText name
      → Requests (mailbox_create env c name ttl) subject_mailbox_create (create_entries name ttl)
  unfolding mailbox_create
  create-Requests name ttl h =
      let d = mailbox_create_body name ttl in
      let (b, e, p) = HasReadable-IsReadBack d (mailbox_create_body-HasReadable name ttl h) in
      (b, d, p, create_body-Says name ttl, λ s. rw e (ground (arith)))

  discover-Requests :
      (text semantic : Option Text) (limit page : ℤ)
      → OptionalText text
      → OptionalText semantic
      → Requests
          (agent_discover env c text semantic limit page)
          subject_agent_discover
          (discover_entries text semantic limit page)
  unfolding agent_discover
  discover-Requests text semantic limit page ht hs =
      let d = discover_body text semantic limit page in
      let (b, e, p) =
        HasReadable-IsReadBack d (discover_body-HasReadable text semantic limit page ht hs) in
      (b, d, p, discover_body-Says text semantic limit page, λ s. rw e (ground (arith)))

  unregister-Requests :
      (mailbox : Text)
      → All IsScalar mailbox
      → Requests
          (agent_unregister env c mailbox)
          subject_agent_unregister
          (unregister_entries mailbox)
  unfolding agent_unregister is_scalar_text
  unregister-Requests mailbox h =
      let d = field (codes "mailbox") (str mailbox) end in
      let (b, e, p) =
        HasReadable-IsReadBack d (one-HasReadable (codes "mailbox") (str mailbox) refl h) in
      (b, d, p, unregister_body-Says mailbox, λ s. rw e (ground (arith)))

  -- All that fetching, querying, acknowledging, creating a mailbox, discovering and unregistering
  -- do outside the client is one request each, on the operation's subject, with bytes from which a
  -- JSON reader gets a dict that has exactly the keys and values that the arguments name, those of
  -- an absent argument left out. This holds as long as the texts among the arguments have no
  -- surrogates and the message id is a value that can be read back from JSON text.
  pub bodies_read :
      (a g mailbox : Text) (o : FetchOptions) (key name text semantic : Option Text)
      (limit since : Option ℤ) (i : Json) (ttl top page : ℤ)
      → HasTexts o
      → OptionalText key
      → OptionalText name
      → OptionalText text
      → OptionalText semantic
      → All IsScalar a
      → All IsScalar g
      → All IsScalar mailbox
      → IsReadable i
      → Requests (fetch env c a o) (subject_msg_fetch a) (fetch_entries o)
        × Requests
            (query env c a key limit since)
            (subject_msg_query a)
            (query_entries key limit since)
        × Requests (ack env c a g i) (subject_msg_ack a) (ack_entries a g i)
        × Requests (mailbox_create env c name ttl) subject_mailbox_create (create_entries name ttl)
        × Requests
            (agent_discover env c text semantic top page)
            subject_agent_discover
            (discover_entries text semantic top page)
        × Requests
            (agent_unregister env c mailbox)
            subject_agent_unregister
            (unregister_entries mailbox)
  bodies_read a g mailbox o key name text semantic limit since i ttl top page ho hk hn ht hs ha hg
        hm hi =
      (
        fetch-Requests a o ho,
        query-Requests a key limit since hk,
        ack-Requests a g i ha hg hi,
        create-Requests name ttl hn,
        discover-Requests text semantic top page ht hs,
        unregister-Requests mailbox hm,
      )
