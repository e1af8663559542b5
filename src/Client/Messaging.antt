-- ===== src/Client/Messaging.antt =====
-- The mailbox and message operations of `Mq9Client`.
use mq.Base.{Text, codes, ℤ, pos, Bool, false, Option, none, some, List, is_empty, if◌then◌else◌}
use mq.Py.Exceptions.{Result, key_error, or_raise}
use mq.Py.Json.{Json, bool, int, str, obj, Fields, end, field, get, set}
use mq.Py.Async.{Async, pure, lift, ◌>>=◌}
use mq.Client.Types.{Env, Mq9Client, Message, Body, of_dict}
use mq.Client.Codec.{encode, messages_of}
use mq.Client.Subjects.{
  subject_mailbox_create, subject_msg_send, subject_msg_fetch, subject_msg_ack, subject_msg_query,
  subject_msg_delete,
}
use mq.Client.Connection.{request, request_with_headers}
use mq.Client.Headers.{Options, headers_of}

-- `if v is not None: body[k] = v`
abbrev pub set_optional {ℓ} : {A : Type ℓ} → Text → (A → Json) → Option A → Fields → Fields
set_optional k f none body = body
set_optional k f (some a) body = set k (f a) body

-- `resp[k]`
abbrev pub item : Fields → Text → Result Json
item resp k = or_raise (get k resp) (key_error k)

-- The keyword arguments of `fetch`.
pub record FetchOptions : Type 0 where
  pub group_name : Option Text
  pub deliver : Text
  pub from_time : Option ℤ
  pub from_id : Option ℤ
  pub force_deliver : Bool
  pub num_msgs : ℤ
  pub max_wait_ms : ℤ

abbrev pub default_fetch : FetchOptions
default_fetch = record {
  group_name = none;
  deliver = codes "latest";
  from_time = none;
  from_id = none;
  force_deliver = false;
  num_msgs = pos 100;
  max_wait_ms = pos 500;
}

unfoldable pub mailbox_create_body : Option Text → ℤ → Fields
unfolding set
mailbox_create_body name ttl =
    set_optional (codes "name") str name (field (codes "ttl") (int ttl) end)

unfoldable pub fetch_body : FetchOptions → Fields
unfolding set
fetch_body o = set_optional (codes "from_id") int o.from_id (
    set_optional (codes "from_time") int o.from_time (
      set_optional (codes "group_name") str o.group_name (
        field (codes "deliver") (str o.deliver) (
          field (codes "force_deliver") (bool o.force_deliver) (
            field (codes "config")
              (obj (
                field (codes "num_msgs") (int o.num_msgs)
                  (field (codes "max_wait_ms") (int o.max_wait_ms) end)))
              end)))))

unfoldable pub ack_body : Text → Text → Json → Fields
ack_body mail_address group_name msg_id =
    field (codes "group_name") (str group_name)
      (field (codes "mail_address") (str mail_address) (field (codes "msg_id") msg_id end))

unfoldable pub query_body : Option Text → Option ℤ → Option ℤ → Fields
unfolding set
query_body key limit since =
    set_optional (codes "since") int since
      (set_optional (codes "limit") int limit (set_optional (codes "key") str key end))

module _ {S : Type 0} (env : Env S) (c : Mq9Client S) where
  unfoldable pub mailbox_create : Option Text → ℤ → Async S Json
  mailbox_create name ttl = do
    payload ← lift (encode (of_dict (mailbox_create_body name ttl)))
    resp ← request env c subject_mailbox_create payload
    lift (item resp (codes "mail_address"))

  unfoldable pub send : Text → Body → Options → Async S Json
  send mail_address payload o = do
    payload' ← lift (encode payload)
    resp ←
        if is_empty (headers_of o)
        then request env c (subject_msg_send mail_address) payload'
        else request_with_headers env c (subject_msg_send mail_address) payload' (headers_of o)
    lift (item resp (codes "msg_id"))

  unfoldable pub fetch : Text → FetchOptions → Async S (List Message)
  fetch mail_address o = do
    payload ← lift (encode (of_dict (fetch_body o)))
    resp ← request env c (subject_msg_fetch mail_address) payload
    lift (messages_of resp)

  unfoldable pub ack : Text → Text → Json → Async S (Unit {0})
  ack mail_address group_name msg_id = do
    payload ← lift (encode (of_dict (ack_body mail_address group_name msg_id)))
    _ ← request env c (subject_msg_ack mail_address) payload
    pure tt

  unfoldable pub query : Text → Option Text → Option ℤ → Option ℤ → Async S (List Message)
  query mail_address key limit since = do
    payload ← lift (encode (of_dict (query_body key limit since)))
    resp ← request env c (subject_msg_query mail_address) payload
    lift (messages_of resp)

  -- The body is the two characters `""`.
  unfoldable pub delete : Text → Json → Async S (Unit {0})
  delete mail_address msg_id = do
    _ ← request env c (subject_msg_delete mail_address (env.format msg_id)) (codes "\"\"")
    pure tt
