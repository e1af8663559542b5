-- ===== src/A2a/TaskStore/Keyed.antt =====
-- The task store over a mailbox that keeps the latest message of each key: a map from task ids to
-- tasks.
use mq.Base.{
  Text, Bytes, true, Option, none, some, List, ◌∷◌, ◌++◌, All, ◌≡◌, ◌≢◌, ap, ◌∙◌, sym, arith,
}
use mq.Py.Exceptions.{Result, ok}
use mq.Py.Json.{Json}
use mq.Py.Async.{Async, resume, handle}
use mq.Client.Types.{Env, Mq9Client, Message, decoded, of_bytes}
use mq.Client.Headers.{default_options}
use mq.Client.Messaging.{send, query}
use mq.Py.Base64.RoundTrip.{IsByte}
use mq.A2a.Types.{Sdk}
use mq.A2a.TaskStore.{TaskStore, key_prefix, save, get, first_task}

module _ {S : Type 0} (env : Env S) (c : Mq9Client S) (box : Text) where
  abbrev pub post : Text → Bytes → Async S Json
  post k b = send env c box (of_bytes b) (record default_options { key = some k })

  abbrev pub look : Text → S → Result (List Message)
  look k s = (query env c box (some k) none none s).0

  -- What protocol.md says of `mq9-key` and of QUERY by key: a message that SEND has accepted is the
  -- latest of its key, and a query for the key returns it.
  pub record ReturnsLatest : Type 0 where
    pub latest :
        (k : Text) (b : Bytes) (s : S) (i : Json)
        → All IsByte b
        → (post k b s).0 ≡ ok i
        → (msg : Message) × (rest : List Message) × (look k (post k b s).1 ≡ ok (msg ∷ rest))
          × (msg.payload ≡ decoded b)

module _ (sdk : Sdk) {S : Type 0} (env : Env S) (store : TaskStore S)
    (ready : store.ready ≡ true) where
  open sdk use {Task, id_of, task_json, parse_task}

  abbrev pub key_of : Text → Text
  key_of task_id = key_prefix ++ task_id

  -- What `get` returns depends on the reply to its query alone.
  abbrev pub answer : Result (List Message) → Result (Option Task)
  answer r =
      (handle (resume r (λ msgs s. (first_task sdk env store msgs, s)) tt).0 (λ _ s. (ok none, s))
        tt).0

  pub get-answer :
      (i : Text) (s : S)
      → (get sdk env store i s).0 ≡ answer (look env store.mq9 store.mailbox (key_of i) s)
  unfolding get
  get-answer i s = rw ready (ground arith)

  state-save :
      (t : Task) (b : Bytes) (s : S)
      → task_json t ≡ ok b
      → (save sdk env store t s).1 ≡ (post env store.mq9 store.mailbox (key_of (id_of t)) b s).1
  unfolding save
  state-save t b s e = rw (ready, e) (ground arith)

  answer-first :
      (msg : Message) (rest : List Message) (t : Task)
      → parse_task msg.payload ≡ ok t
      → answer (ok (msg ∷ rest)) ≡ ok (some t)
  unfolding first_task
  answer-first msg rest t e = ground (arith, e)

  -- For a store that is ready, a mailbox that returns the latest message of each key, and a task
  -- that its parser reads back: a task that the broker has accepted is what `get` returns for its
  -- id, also when an older state of the task was stored before: the latest state wins.
  pub get-save :
      ReturnsLatest env store.mq9 store.mailbox
      → (t : Task) (b : Bytes) (s : S) (i : Json) → task_json t ≡ ok b
      → All IsByte b
      → parse_task (decoded b) ≡ ok t
      → (post env store.mq9 store.mailbox (key_of (id_of t)) b s).0 ≡ ok i
      → (get sdk env store (id_of t) (save sdk env store t s).1).0 ≡ ok (some t)
  get-save keeps t b s i prints bytes parses accepted =
      let (msg, rest, found, payload) = keeps.latest (key_of (id_of t)) b s i bytes accepted in
      get-answer (id_of t) _
      ∙ ap (λ (w : S). answer (look env store.mq9 store.mailbox (key_of (id_of t)) w))
          (state-save t b s prints)
      ∙ ap answer found
      ∙ answer-first msg rest t (ap parse_task payload ∙ parses)

  pub key_of-ne : (i j : Text) → i ≢ j → key_of i ≢ key_of j
  key_of-ne i j h e = h (cc)

  -- What another id's messages read as is all that matters for it.
  pub get-save_other :
      (t : Task) (b : Bytes) (j : Text) (s : S)
      → task_json t ≡ ok b
      → look env store.mq9 store.mailbox
          (key_of j)
          (post env store.mq9 store.mailbox (key_of (id_of t)) b s).1
        ≡ look env store.mq9 store.mailbox (key_of j) s
      → (get sdk env store j (save sdk env store t s).1).0 ≡ (get sdk env store j s).0
  get-save_other t b j s prints same =
      get-answer j _
      ∙ ap (λ (w : S). answer (look env store.mq9 store.mailbox (key_of j) w))
          (state-save t b s prints)
      ∙ ap answer same
      ∙ sym (get-answer j s)
