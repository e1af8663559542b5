-- ===== src/A2a/TaskStore/Safety.antt =====
-- What leaves the task store: an `Exception` of printing a task, and no other.
use mq.Base.{Text, Bytes, ℤ, Bool, true, false, none, [], ◌≡◌, refl, if◌then◌else◌}
use mq.Py.Exceptions.{Result, ok, raise}
use mq.Py.Async.{Async, pure, try_except}
use mq.Py.Async.OnlyCancelled.{IsCancelled, OnlyCancelled, OnlyCancelled-pure, OnlyCancelled-try}
use mq.Client.Types.{Env}
use mq.A2a.Types.{Sdk}
use mq.A2a.TaskStore.{TaskStore, save, get, delete_task, list_tasks}

OnlyCancelled-guarded :
    {S A : Type 0} (b : Bool) (m : Async S A) (a d : A)
    → OnlyCancelled (if b then try_except m (λ _. pure d) else pure a)
OnlyCancelled-guarded true m a d = OnlyCancelled-try m (λ _. pure d) (λ _. OnlyCancelled-pure d)
OnlyCancelled-guarded false m a d = OnlyCancelled-pure a

-- What saving ends with, given what printing the task does: without a printed task it raises what
-- the printing has raised, but a store that is not ready prints nothing.
abbrev pub SavesAs : Bool → Result Bytes → Result (Unit {0}) → Type 0
SavesAs ready (ok b) r = IsCancelled r
SavesAs true (raise e) r = r ≡ raise e
SavesAs false (raise e) r = r ≡ ok tt

-- Getting, deleting and listing return or are cancelled, whether or not the store is ready and
-- whatever the broker and the parser do; and so does saving a task that can be printed. Saving one
-- that cannot be printed raises what the printing has raised if the store is ready, and returns if
-- it is not.
pub store_never_raises :
    (sdk : Sdk) {S : Type 0} (env : Env S) (store : TaskStore S) (s : S)
    → ((t : sdk.Task) → SavesAs store.ready (sdk.task_json t) (save sdk env store t s).0)
      × ((i : Text) → IsCancelled (get sdk env store i s).0)
      × ((i : Text) → IsCancelled (delete_task sdk env store i s).0)
      × ((n : ℤ) → IsCancelled (list_tasks sdk env store n s).0)
unfolding save get delete_task list_tasks
store_never_raises sdk env store s = (
  λ t. by_bytes t (sdk.task_json t) store.ready refl refl,
  λ i. (OnlyCancelled-guarded store.ready _ none none).at s,
  λ i. (OnlyCancelled-guarded store.ready _ tt tt).at s,
  λ n. (OnlyCancelled-guarded store.ready _ [] []).at s,
)
  where
    by_bytes :
        (t : sdk.Task) (r : Result Bytes) (b : Bool)
        → sdk.task_json t ≡ r
        → store.ready ≡ b
        → SavesAs b r (save sdk env store t s).0
    by_bytes t (ok bytes) b e p = rw e ((OnlyCancelled-guarded store.ready _ tt tt).at s)
    by_bytes t (raise x) true e p = rw (e, p) refl
    by_bytes t (raise x) false e p = rw (e, p) refl
