-- ===== src/Tests/Store.antt =====
-- The theorems about the task store, and about a task on its way to a caller, on the small network.
use mq.Base.{
  Text, Bytes, codes, text_eq, ℤ, pos, none, some, [], ◌∷◌, All, ◌≡◌, refl, ap, sym, subst, arith,
}
use mq.Py.Exceptions.{ok}
use mq.Py.Json.{int, obj, Fields, get, truthy}
use mq.Py.Async.OnlyCancelled.{IsCancelled}
use mq.Py.Dict.{Headers}
use mq.Py.Dumps.Ascii.{utf8_encode-dumps}
use mq.Py.Base64.RoundTrip.{IsByte}
use mq.Client.Types.{decoded}
use mq.Client.Codec.{check_response, decode_response, encode, messages_of}
use mq.Client.Codec.RoundTrip.{message_of}
use mq.A2a.TaskStore.{
  TaskStore, new_store, mark_ready, save, get as get_stored, delete_task, list_tasks,
}
use mq.A2a.TaskStore.Safety.{SavesAs, store_never_raises}
use mq.Client.Connection.{request_with_headers}
use mq.Client.Connection.{new_client}
use mq.Client.Messaging.{query, query_body}
use mq.Py.Dumps.{dumps}
use mq.Client.Types.{of_dict}
use mq.Client.Codec.RoundTrip.{wire_item}
use mq.A2a.TaskStore.Keyed.{post, ReturnsLatest}
use mq.Client.Codec.RoundTrip.{parse_messages-wire_items}
use mq.Tests.World.{stored, Net, start, env, client}
use mq.Tests.A2a.{sdk}

abbrev pub store : TaskStore Net
store = mark_ready (new_store client (codes "box.tasks"))

store_never_raises_example :
    ((t : sdk.Task) → SavesAs store.ready (sdk.task_json t) (save sdk env store t start).0)
    × ((i : Text) → IsCancelled (get_stored sdk env store i start).0)
    × ((i : Text) → IsCancelled (delete_task sdk env store i start).0)
    × ((n : ℤ) → IsCancelled (list_tasks sdk env store n start).0)
store_never_raises_example = store_never_raises sdk env store start

-- What a query is answered, when the mailbox holds `s.cell`.
pub encodes : (d : Fields) → encode (of_dict d) ≡ ok (dumps (obj d))
unfolding encode
encodes d = utf8_encode-dumps (obj d)

pub query-cell :
    (k : Text) (s : Net)
    → All IsByte s.cell
    → (query env client (codes "box.tasks") (some k) none none s).0
      ≡ ok (message_of (stored s.cell) ∷ [])
unfolding query mq.Client.Connection.request decode_response check_response get truthy text_eq
    messages_of wire_item
query-cell k s h = rw (
  encodes (query_body (some k) none none),
  parse_messages-wire_items (stored s.cell ∷ []) (h, tt),
)

cell-post :
    (k : Text) (b : Bytes) (s : Net) → (post env client (codes "box.tasks") k b s).1.cell ≡ b
unfolding mq.Client.Messaging.send encode mq.Client.Headers.headers_of mq.Client.Headers.set_header
    mq.Py.Dict.insert mq.Client.Connection.request_with_headers mq.Client.Connection.exchange
    mq.Client.Connection.publish_and_wait mq.Client.Connection.wait_for decode_response
    check_response truthy get text_eq
cell-post k b s = refl

post-bytes :
    (k : Text) (b : Bytes) (s : Net)
    → All IsByte b
    → All IsByte (post env client (codes "box.tasks") k b s).1.cell
post-bytes k b s h = subst (All IsByte) (sym (cell-post k b s)) h

pub env-ReturnsLatest : ReturnsLatest env client (codes "box.tasks")
unfolding message_of
env-ReturnsLatest = record {
  latest = λ k b s i h p. (
    message_of (stored (post env client (codes "box.tasks") k b s).1.cell),
    [],
    query-cell k (post env client (codes "box.tasks") k b s).1 (post-bytes k b s h),
    ap decoded (cell-post k b s),
  );
}

pub task_bytes : All IsByte (codes "task")
task_bytes = (omega arith, (omega arith, (omega arith, (omega arith, tt))))

pub posted :
    (k : Text) (s : Net)
    → (post env client (codes "box.tasks") k (codes "task") s).0 ≡ ok (int (pos 7))
unfolding mq.Client.Messaging.send encode mq.Client.Headers.headers_of mq.Client.Headers.set_header
    mq.Py.Dict.insert mq.Client.Connection.request_with_headers mq.Client.Connection.exchange
    mq.Client.Connection.publish_and_wait mq.Client.Connection.wait_for decode_response
    check_response truthy get text_eq
posted k s = refl
