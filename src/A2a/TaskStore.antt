-- ===== src/A2a/TaskStore.antt =====
-- `Mq9A2ATaskStore`, python/mq9/a2a/_task_store.py. Logging is left out.
pub mod Keyed
pub mod Refines
pub mod Safety
use mq.Base.{
  ℕ, Text, codes, ℤ, pos, is_positive, Bool, true, false, Option, none, some, List, [], ◌∷◌, ◌++◌,
  if◌then◌else◌,
}
use mq.Py.Exceptions.{Result, ok, raise}
use mq.Py.Async.{Async, pure, lift, ◌>>=◌, ◌>>◌, try_except}
use mq.Client.Types.{Env, Mq9Client, Message, of_bytes, Payload}
use mq.Client.Headers.{Options, default_options}
use mq.Client.Messaging.{send, query, delete}
use mq.A2a.Types.{Sdk}

abbrev pub key_prefix : Text
key_prefix = codes "task."

pub record TaskStore (S : Type 0) : Type 0 where
  pub mq9 : Mq9Client S
  pub mailbox : Text
  pub ready : Bool

abbrev pub new_store : {S : Type 0} → Mq9Client S → Text → TaskStore S
new_store mq9 mailbox = record { mq9 = mq9; mailbox = mailbox; ready = false }

abbrev pub mark_ready : {S : Type 0} → TaskStore S → TaskStore S
mark_ready store = record store { ready = true }

abbrev pub keyed : Text → Options
keyed task_id = record default_options { key = some (key_prefix ++ task_id) }

module _ (sdk : Sdk) {S : Type 0} (env : Env S) (store : TaskStore S) where
  open sdk use {Task, id_of, task_json, parse_task}

  unfoldable pub save : Task → Async S (Unit {0})
  save task =
      if store.ready
      then (do
        payload ← lift (task_json task)
        try_except
            (do
              _ ← send env store.mq9 store.mailbox (of_bytes payload) (keyed (id_of task))
              pure tt)
            (λ _. pure tt))
      else pure tt

  -- `Parse(msgs[0].payload, Task())`, or `None` with no message
  unfoldable pub first_task : List Message → Result (Option Task)
  first_task [] = ok none
  first_task (msg ∷ msgs) = elim (parse_task msg.payload) [ ok t ↦ ok (some t) | raise e ↦ raise e ]

  unfoldable pub get : Text → Async S (Option Task)
  unfolding first_task
  get task_id =
      if store.ready
      then try_except
          (do
            msgs ← query env store.mq9 store.mailbox (some (key_prefix ++ task_id)) none none
            lift (first_task msgs))
          (λ _. pure none)
      else pure none

  unfoldable pub delete_all : List Message → Async S (Unit {0})
  delete_all [] = pure tt
  delete_all (msg ∷ msgs) = do delete env store.mq9 store.mailbox msg.msg_id; delete_all msgs

  -- `TaskStore.delete`
  unfoldable pub delete_task : Text → Async S (Unit {0})
  unfolding delete_all
  delete_task task_id =
      if store.ready
      then try_except
          (do
            msgs ← query env store.mq9 store.mailbox (some (key_prefix ++ task_id)) none none
            delete_all msgs)
          (λ _. pure tt)
      else pure tt

  -- The messages that parse; the others are passed over.
  unfoldable pub parse_all : List Message → List Task
  parse_all [] = []
  parse_all (msg ∷ msgs) =
      let rest = parse_all msgs in
      elim (parse_task msg.payload) [ ok t ↦ t ∷ rest | raise _ ↦ rest ]

  abbrev pub limit_of : ℤ → ℤ
  limit_of page_size = if is_positive page_size then page_size else pos 100

  -- `TaskStore.list`: the response stands for its tasks.
  unfoldable pub list_tasks : ℤ → Async S (List Task)
  unfolding parse_all
  list_tasks page_size =
      if store.ready
      then try_except
          (do
            msgs ← query env store.mq9 store.mailbox none (some (limit_of page_size)) none
            pure (parse_all msgs))
          (λ _. pure [])
      else pure []
