-- ===== src/Langchain/Tools/Closes.antt =====
-- That every tool closes the connection that it opens.
use mq.Client.Messaging.{mailbox_create}
use mq.Client.Agents.{agent_register}
use mq.Base.{none, ℕ, ◌-◌, Text, some, ◌≡◌, refl, ap, ◌∙◌, arith}
use mq.Py.Exceptions.{Result, ok, raise}
use mq.Py.Async.{Async, lift, ◌>>=◌}
use mq.Py.Async.Keeps.{Keeps, Keeps-lift, Keeps-bind, Keeps-pure}
use mq.Client.Types.{Nats, Env, Mq9Client}
use mq.Client.Connection.{new_client, connect}
use mq.Client.Keeps.{
  Calls, mailbox_create-Keeps, send-Keeps, fetch-Keeps, ack-Keeps, query-Keeps, delete-Keeps,
  agent_register-Keeps, agent_discover-Keeps,
}
use mq.Langchain.Inputs.{
  CreateMailboxInput, SendMessageInput, FetchMessagesInput, AckInput, QueryMessagesInput,
  DeleteMessageInput, AgentRegisterInput, AgentDiscoverInput,
}
use mq.Langchain.Session.{within, with_client}
use mq.Langchain.Session.Watched.{Watched, watched, Answers, Connections, watched-Connections}
use mq.Langchain.Tools.{
  create_mailbox_tool, send_message_tool, fetch_messages_tool, ack_messages_tool,
  query_messages_tool, delete_message_tool, agent_register_tool, agent_discover_tool,
}

module _ {S : Type 0} (env : Env S) (count : S → ℕ) (laws : Connections env count)
    (server : Text) where
  abbrev connected : S → Result (Nats S) × S
  connected = env.connect server 5 2000

  abbrev client_of : Nats S → Mq9Client S
  client_of nc = record (new_client server 5000) { nc = some nc }

  -- As many connections are left to be closed after the coroutine as before, however it ends.
  record Closes {A : Type 0} (m : Async S A) : Type 0 where
    at : (s : S) → count (m s).1 ≡ count s

  -- The body is to keep that number.
  pub count-with_client :
      {A : Type 0} (body : Mq9Client S → Async S A) (s : S)
      → ((c : Mq9Client S) (nc : Nats S)
          → c.nc ≡ some nc
          → ((m : ℕ) → Calls (λ w. count w ≡ m) nc)
          → (m : ℕ) → Keeps (λ w. count w ≡ m) (body c))
      → count (with_client env server body s).1 ≡ count s
  unfolding with_client within connect
  count-with_client {A} body s keeps = by_connect (connected s).0 refl
    where
      by_connect :
          (r : Result (Nats S))
          → (connected s).0 ≡ r
          → count (with_client env server body s).1 ≡ count s
      by_connect (ok nc) e =
          let s1 = (connected s).1 in
          let s2 = (body (client_of nc) s1).1 in
          rw e (
            laws.settled server 5 2000 s nc e (client_of nc) refl s2
            ∙ ap (λ (n : ℕ). n - 1)
                ((keeps (client_of nc) nc refl (laws.quiet server 5 2000 s nc e) (count s1)).at s1
                    refl
                  ∙ laws.opened server 5 2000 s nc e)
            ∙ omega arith)
      by_connect (raise x) e = rw e (laws.refused server 5 2000 s x e)

  Closes-with_client :
      {A : Type 0} (body : Mq9Client S → Async S A)
      → ((c : Mq9Client S) (nc : Nats S)
          → c.nc ≡ some nc
          → ((m : ℕ) → Calls (λ w. count w ≡ m) nc)
          → (m : ℕ) → Keeps (λ w. count w ≡ m) (body c))
      → Closes (with_client env server body)
  Closes-with_client body keeps = record { at = λ s. count-with_client body s keeps }

  -- What a tool does with the result touches no connection.
  Closes-then :
      {A B : Type 0} (m : Async S A) (f : A → Result B) → Closes m → Closes (m >>= λ a. lift (f a))
  Closes-then m f h = record { at = λ s. ground (arith, h.at s) }

  create_mailbox-Closes : (i : CreateMailboxInput) → Closes (create_mailbox_tool env server i)
  unfolding create_mailbox_tool
  create_mailbox-Closes i =
      Closes-with_client _ λ c nc e q m. mailbox_create-Keeps env c nc e (q m) none i.ttl

  send_message-Closes : (i : SendMessageInput) → Closes (send_message_tool env server i)
  unfolding send_message_tool
  send_message-Closes i = Closes-then (with_client env server _) _ (
      Closes-with_client _
        λ c nc e q m. Keeps-bind (lift _) _ (Keeps-lift _) λ b. send-Keeps env c nc e (q m) _ _ _)

  fetch_messages-Closes : (i : FetchMessagesInput) → Closes (fetch_messages_tool env server i)
  unfolding fetch_messages_tool
  fetch_messages-Closes i =
      Closes-then (with_client env server _) _
        (Closes-with_client _ λ c nc e q m. fetch-Keeps env c nc e (q m) _ _)

  ack_messages-Closes : (i : AckInput) → Closes (ack_messages_tool env server i)
  unfolding ack_messages_tool
  ack_messages-Closes i =
      Closes-then (with_client env server _) (λ _. ok _)
        (Closes-with_client _ λ c nc e q m. ack-Keeps env c nc e (q m) _ _ _)

  query_messages-Closes : (i : QueryMessagesInput) → Closes (query_messages_tool env server i)
  unfolding query_messages_tool
  query_messages-Closes i =
      Closes-then (with_client env server _) _
        (Closes-with_client _ λ c nc e q m. query-Keeps env c nc e (q m) _ _ _ _)

  delete_message-Closes : (i : DeleteMessageInput) → Closes (delete_message_tool env server i)
  unfolding delete_message_tool
  delete_message-Closes i =
      Closes-then (with_client env server _) (λ _. ok _)
        (Closes-with_client _ λ c nc e q m. delete-Keeps env c nc e (q m) _ _)

  agent_register-Closes : (i : AgentRegisterInput) → Closes (agent_register_tool env server i)
  unfolding agent_register_tool
  agent_register-Closes i = Closes-then (with_client env server _) _ (
      Closes-with_client _ λ c nc e q m.
        Keeps-bind (mailbox_create env c _ _) _ (mailbox_create-Keeps env c nc e (q m) _ _) λ a.
          Keeps-bind (agent_register env c _) _ (agent_register-Keeps env c nc e (q m) _)
            λ _. Keeps-pure a)

  agent_discover-Closes : (i : AgentDiscoverInput) → Closes (agent_discover_tool env server i)
  unfolding agent_discover_tool
  agent_discover-Closes i =
      Closes-then (with_client env server _) _
        (Closes-with_client _ λ c nc e q m. agent_discover-Keeps env c nc e (q m) _ _ _ _)

-- For connections whose `is_closed` returns, every connection that a tool opens it closes: whatever
-- the tool is given, and whether its client cannot connect, a call fails or is cancelled, the reply
-- is malformed or all goes well, for each connection that `nats.connect` has returned the tool has
-- called `drain`, or has been answered that it is closed already. What `drain` itself then does,
-- nothing is said of.
pub tools_close :
    {S : Type 0} (env : Env S)
    → Answers env
    → (server : Text) (s : S) (n : ℕ)
    → ((i : CreateMailboxInput) → (create_mailbox_tool (watched env) server i (s, n)).1.1 ≡ n)
      × ((i : SendMessageInput) → (send_message_tool (watched env) server i (s, n)).1.1 ≡ n)
      × ((i : FetchMessagesInput) → (fetch_messages_tool (watched env) server i (s, n)).1.1 ≡ n)
      × ((i : AckInput) → (ack_messages_tool (watched env) server i (s, n)).1.1 ≡ n)
      × ((i : QueryMessagesInput) → (query_messages_tool (watched env) server i (s, n)).1.1 ≡ n)
      × ((i : DeleteMessageInput) → (delete_message_tool (watched env) server i (s, n)).1.1 ≡ n)
      × ((i : AgentRegisterInput) → (agent_register_tool (watched env) server i (s, n)).1.1 ≡ n)
      × ((i : AgentDiscoverInput) → (agent_discover_tool (watched env) server i (s, n)).1.1 ≡ n)
tools_close {S} env answers server s n =
    let laws = watched-Connections env answers in
    let count : Watched S → ℕ = λ w. w.1 in
    (
      λ i. (create_mailbox-Closes (watched env) count laws server i).at (s, n),
      λ i. (send_message-Closes (watched env) count laws server i).at (s, n),
      λ i. (fetch_messages-Closes (watched env) count laws server i).at (s, n),
      λ i. (ack_messages-Closes (watched env) count laws server i).at (s, n),
      λ i. (query_messages-Closes (watched env) count laws server i).at (s, n),
      λ i. (delete_message-Closes (watched env) count laws server i).at (s, n),
      λ i. (agent_register-Closes (watched env) count laws server i).at (s, n),
      λ i. (agent_discover-Closes (watched env) count laws server i).at (s, n),
    )
