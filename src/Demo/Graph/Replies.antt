-- ===== src/Demo/Graph/Replies.antt =====
-- When the graph ends, and what it has found.
use mq.Base.{ℕ, zero, suc, Text, codes, Bool, true, false, [], ◌∷◌, ◌≡◌, refl, subst, pos}
use mq.Py.Exceptions.{Result, ok, raise}
use mq.Py.Async.{Async, resume}
use mq.Client.Types.{Env}
use mq.Langchain.Inputs.{FetchMessagesInput}
use mq.Langchain.Tools.{fetch_messages_tool}
use mq.Demo.Graph.{
  State, Node, setup_node, poll_node, end_node, contains, has_reply, should_continue, ack_reply,
  poll_reply, run_node, run_nodes,
}

-- Whatever is returned satisfies `P`.
abbrev pub Gives : {A : Type 0} → (A → Type 0) → Result A → Type 0
Gives P (ok a) = P a
Gives P (raise e) = Unit

module _ {S A B : Type 0} (P : A → Type 0) (Q : B → Type 0) where
  resume-Gives :
      (r : Result A) (f : A → Async S B) (s : S)
      → Gives P r
      → ((a : A) → P a → (s : S) → Gives Q (f a s).0)
      → Gives Q (resume r f s).0
  resume-Gives (ok a) f s h k = k a h s
  resume-Gives (raise e) f s h k = tt

Gives-self : {A : Type 0} (r : Result A) → Gives (λ a. r ≡ ok a) r
Gives-self (ok a) = refl
Gives-self (raise e) = tt

any-Gives : {A : Type 0} (r : Result A) → Gives (λ _. Unit {0}) r
any-Gives (ok a) = tt
any-Gives (raise e) = tt

abbrev polled : State → Text → State
polled state result = record state { messages = result ∷ []; done = has_reply result }

module _ {S : Type 0} (env : Env S) (server : Text) where
  -- The arguments that a poll gives the fetch tool.
  abbrev pub asks : Text → FetchMessagesInput
  asks address = record {
    mail_address = address;
    group_name = codes "orchestrator";
    num_msgs = pos 5;
  }

  -- What the fetch tool has returned for an address, in some state of the network.
  abbrev pub Fetched : Text → Text → Type 0
  Fetched address result =
      (s : S) × ((fetch_messages_tool env server (asks address) s).0 ≡ ok result)

  -- The only message of the state is a text that the fetch tool has returned for its address, and
  -- it does not say that there is none.
  abbrev pub HasReply : State → Type 0
  HasReply state =
      (result : Text) × (state.messages ≡ result ∷ [])
      × Fetched state.reply_address result
      × (contains (codes "No messages") result ≡ false)

  -- Where the graph is after a poll at an address.
  abbrev pub Polls : Text → Node × State → Type 0
  Polls address (setup_node, state) = ⊥
  Polls address (poll_node, state) = state.reply_address ≡ address
  Polls address (end_node, state) = (state.reply_address ≡ address) × HasReply state

  next-Polls :
      (state : State) (result : Text)
      → Fetched state.reply_address result
      → Polls state.reply_address (should_continue (polled state result), polled state result)
  next-Polls state result f = by_answer (contains (codes "No messages") result) refl
    where
      by_answer :
          (b : Bool)
          → contains (codes "No messages") result ≡ b
          → Polls state.reply_address (should_continue (polled state result), polled state result)
      by_answer true e = rw e refl
      by_answer false e = rw e (refl, (result, refl, f, e))

  -- What a poll ends with, as the edge after it sees it.
  abbrev Goes : Text → State → Type 0
  Goes address state = Polls address (should_continue state, state)

  poll_reply-Goes :
      (state : State) (s : S) → Gives (Goes state.reply_address) (poll_reply env server state s).0
  unfolding poll_reply
  poll_reply-Goes state s =
      let fetched = fetch_messages_tool env server (asks state.reply_address) s in
      resume-Gives (λ result. fetched.0 ≡ ok result) (Goes state.reply_address) fetched.0 _
        fetched.1 (Gives-self fetched.0)
        λ result f u.
          let acked = ack_reply env server state.reply_address result (has_reply result) u in
          resume-Gives (λ _. Unit {0}) (Goes state.reply_address) acked.0 _ acked.1
            (any-Gives acked.0) λ _ _ v. next-Polls state result (s, f)

  run_poll-Polls :
      (state : State) (s : S)
      → Gives (Polls state.reply_address) (run_node env server poll_node state s).0
  unfolding run_node
  run_poll-Polls state s =
      resume-Gives (Goes state.reply_address) (Polls state.reply_address)
        (poll_reply env server state s).0 _ (poll_reply env server state s).1
        (poll_reply-Goes state s) λ state' h u. h

  run_nodes-Polls :
      (n : ℕ) (address : Text) (at : Node × State) (s : S)
      → Polls address at
      → Gives (Polls address) (run_nodes env server n at.0 at.1 s).0
  unfolding run_nodes run_node
  run_nodes-Polls zero address at s h = h
  run_nodes-Polls (suc n) address (setup_node, state) s h = absurd h
  run_nodes-Polls (suc n) address (poll_node, state) s h =
      let ran = run_node env server poll_node state s in
      resume-Gives (Polls address) (Polls address) ran.0 _ ran.1
        (subst (λ a. Gives (Polls a) ran.0) h (run_poll-Polls state s))
        λ next k u. run_nodes-Polls n address next u k
  run_nodes-Polls (suc n) address (end_node, state) s h =
      run_nodes-Polls n address (end_node, state) s h

  -- From the first poll on, however many nodes the graph runs and whatever the broker answers: if
  -- nothing was raised, the reply address is still the one that it set out with, and the graph is
  -- at its end only with one text as its messages, which the fetch tool has returned for that
  -- address, the group "orchestrator" and five messages, and in which "No messages" does not occur.
  pub graph_replies :
      (n : ℕ) (state : State) (s : S)
      → Gives (Polls state.reply_address) (run_nodes env server n poll_node state s).0
  graph_replies n state s = run_nodes-Polls n state.reply_address (poll_node, state) s refl
