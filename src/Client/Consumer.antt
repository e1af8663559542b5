-- ===== src/Client/Consumer.antt =====
-- `Consumer` and the background loop of `Mq9Client.consume`. Logging is left out.
pub mod Survival
pub mod Counting
pub mod Keeps
pub mod AckOrder
pub mod Delivery
use mq.Base.{
  ℕ, zero, suc, ◌+◌, Text, codes, ℤ, pos, Bool, true, false, Option, none, some, List, [], ◌∷◌,
  if◌then◌else◌,
}
use mq.Py.Exceptions.{Exn, Result, ok, raise}
use mq.Py.Async.{Async, pure, throw, ◌>>=◌, ◌>>◌, try_except}
use mq.Client.Types.{Env, Mq9Client, Message}
use mq.Client.Messaging.{FetchOptions, default_fetch, fetch, ack}

-- The task is the loop below; the rest of the object is what it and its owner write.
pub record Consumer : Type 0 where
  pub is_running : Bool
  pub processed_count : ℕ

abbrev pub new_consumer : Consumer
new_consumer = record { is_running = true; processed_count = 0 }

-- The state of the world while a consumer runs.
pub record Running (S : Type 0) : Type 0 where
  pub net : S
  pub consumer : Consumer

-- The arguments of `consume`, but for the two callbacks.
pub record ConsumeOptions : Type 0 where
  pub mail_address : Text
  pub group_name : Option Text
  pub deliver : Text
  pub num_msgs : ℤ
  pub max_wait_ms : ℤ
  pub auto_ack : Bool

abbrev pub default_consume : Text → ConsumeOptions
default_consume mail_address = record {
  mail_address = mail_address;
  group_name = none;
  deliver = codes "latest";
  num_msgs = pos 10;
  max_wait_ms = pos 500;
  auto_ack = true;
}

module _ {S : Type 0} where
  abbrev pub on_net : {A : Type 0} → Async S A → Async (Running S) A
  on_net m s = ((m s.net).0, record s { net = (m s.net).1 })

  -- `consumer.processed_count += 1`
  abbrev pub count_one : Async (Running S) (Unit {0})
  count_one s = (
    ok tt,
    record s { consumer = record s.consumer { processed_count = s.consumer.processed_count + 1 } },
  )

abbrev pub fetch_options : ConsumeOptions → FetchOptions
fetch_options o = record default_fetch {
  group_name = o.group_name;
  deliver = o.deliver;
  num_msgs = o.num_msgs;
  max_wait_ms = o.max_wait_ms;
}

-- The `except` block of the inner loop.
abbrev pub on_error :
    {S : Type 0} → Option (Message → Exn → Async S (Unit {0})) → Message → Exn → Async S (Unit {0})
on_error none msg exc = pure tt
on_error (some h) msg exc = try_except (h msg exc) (λ _. pure tt)

module _ {S : Type 0} (env : Env S) (c : Mq9Client S) (o : ConsumeOptions) where
  -- `if auto_ack and group_name is not None`
  abbrev pub ack_if : Bool → Option Text → Message → Async S (Unit {0})
  ack_if true (some group) msg = ack env c o.mail_address group msg.msg_id
  ack_if true none msg = pure tt
  ack_if false group msg = pure tt

  -- The messages of one poll. An error is logged and slept over, and the round has no messages:
  -- `continue` goes back to the head of the loop.
  unfoldable pub poll : Async S (List Message)
  poll =
      try_except (fetch env c o.mail_address (fetch_options o)) (λ exc. do env.sleep 1000; pure [])

module _ {S : Type 0} (env : Env S) (c : Mq9Client S) (o : ConsumeOptions)
    (handler : Message → Async S (Unit {0}))
    (error_handler : Option (Message → Exn → Async S (Unit {0}))) where
  -- the first two lines of the `try`
  unfoldable pub handle_and_ack : Message → Async S (Unit {0})
  handle_and_ack msg = do handler msg; ack_if env c o o.auto_ack o.group_name msg

  -- One round of `for msg in messages`.
  unfoldable pub handle_message : Message → Async (Running S) (Unit {0})
  handle_message msg =
      try_except (on_net (handle_and_ack msg) >> count_one)
        (λ exc. on_net (on_error error_handler msg exc))

  unfoldable pub handle_messages : List Message → Async (Running S) (Unit {0})
  handle_messages [] = pure tt
  handle_messages (msg ∷ msgs) = do handle_message msg; handle_messages msgs

  -- One round of `while True`.
  unfoldable pub round : Async (Running S) (Unit {0})
  round = do messages ← on_net (poll env c o); handle_messages messages

  -- The first `n` rounds: `ok` means that the loop is still running after them.
  unfoldable pub rounds : ℕ → Async (Running S) (Unit {0})
  rounds zero = pure tt
  rounds (suc n) = do round; rounds n

-- `consume` returns the new consumer at once: the state in which its loop starts.
abbrev pub consume : {S : Type 0} → S → Running S
consume s = record { net = s; consumer = new_consumer }

-- `Consumer.stop`: the task is cancelled and awaited, and whatever it ends with is dropped.
-- `unwind` is what the task still does until the cancellation has ended it.
unfoldable pub stop : {S : Type 0} → Async (Running S) (Unit {0}) → Async (Running S) (Unit {0})
stop unwind s =
    (ok tt, record (unwind s).1 { consumer = record (unwind s).1.consumer { is_running = false } })
