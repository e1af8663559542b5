-- ===== src/Client/Connection/Replies.antt =====
-- What every operation of the client makes of a reply.
use mathlib.Core.List.{foldl, head?}
use mq.Base.{
  Text, Bytes, codes, ℤ, Option, none, some, List, [], ◌∷◌, ◌≡◌, refl, arith, if◌then◌else◌,
}
use mq.Py.Exceptions.{Result, ok, raise, mq9_error, timeout_error, or_raise}
use mq.Py.Json.{Json, obj, Fields, get, truthy}
use mq.Client.Types.{Nats, Env, Mq9Client, Message, of_bytes}
use mq.Client.Codec.{check_response, decode_response}
use mq.Client.Connection.{request, wait_for, set_future}
use mq.Client.Headers.{Options}
use mq.Client.Messaging.{mailbox_create, send, fetch, FetchOptions, ack, query, delete}
use mq.Client.Agents.{agent_register, agent_unregister, agent_report, agent_discover}

-- The reply of `_request_with_headers` is the first message of its inbox; later ones are ignored,
-- and with none it is a TimeoutError.
pub wait_for-first :
    (replies : List Bytes) → wait_for replies ≡ or_raise (head? replies) timeout_error
unfolding wait_for
wait_for-first [] = refl
wait_for-first (reply ∷ late) = keep late
  where
    keep :
        (late : List Bytes) → or_raise (foldl set_future (some reply) late) timeout_error ≡ ok reply
    keep [] = refl
    keep (l ∷ late) = keep late

-- `P` of what each operation of the client ends with and the state that it leaves.
abbrev pub Outcomes :
    {S : Type 0} → Env S → Mq9Client S → S → ((A : Type 0) → Result A × S → Type 0) → Type 0
Outcomes env c s P =
    ((name : Option Text) (ttl : ℤ) → P Json (mailbox_create env c name ttl s))
    × ((a : Text) (b : Bytes) (h : Options) → P Json (send env c a (of_bytes b) h s))
    × ((a : Text) (o : FetchOptions) → P (List Message) (fetch env c a o s))
    × ((a g : Text) (i : Json) → P (Unit {0}) (ack env c a g i s))
    × ((a : Text) (k : Option Text) (l t : Option ℤ) → P (List Message) (query env c a k l t s))
    × ((a : Text) (i : Json) → P (Unit {0}) (delete env c a i s))
    × ((card : Fields) → P (Unit {0}) (agent_register env c card s))
    × ((mailbox : Text) → P (Unit {0}) (agent_unregister env c mailbox s))
    × ((report : Fields) → P (Unit {0}) (agent_report env c report s))
    × ((t m : Option Text) (l p : ℤ) → P Json (agent_discover env c t m l p s))

module _ {S : Type 0} (env : Env S) (c : Mq9Client S) (s : S) where
  -- The contract of the `error` field. When the server answers with a JSON object, the request
  -- raises a Mq9Error that carries the field exactly when the field is there and truthy, and else
  -- returns the object.
  request-error_field :
      (nc : Nats S) (t : Text) (b reply : Bytes) (d : Fields)
      → c.nc ≡ some nc
      → (nc.request t b c.request_timeout s).0 ≡ ok reply
      → env.loads reply ≡ ok (obj d)
      → (request env c t b s).0 ≡ (elim (get (codes "error") d) [
        | none ↦ ok d
        | some v ↦ if truthy v then raise (mq9_error v) else ok d
      ])
  unfolding request decode_response check_response truthy
  request-error_field nc t b reply d e p q = rw (e, p, q) (ground arith)
