-- ===== src/Demo/Tools/Acks.antt =====
-- Which message the demo of the tools acknowledges.
use mq.Base.{ℕ, Text, codes, List, [], ◌∷◌, ◌++◌, ◌≡◌, refl, ap, sym, ◌∙◌, pos}
use mq.Base.Decimal.{decimal}
use mq.Base.Decimal.Parse.{value_from, value_from-decimal}
use mq.Py.Exceptions.{Result, ok, raise, map_result}
use mq.Py.Async.{pure, ◌>>=◌}
use mq.Py.Text.{join}
use mq.Client.Types.{Env, Message}
use mq.Langchain.Show.{newline, content, message_line, message_lines}
use mq.Langchain.Tools.{ack_messages_tool}
use mq.Langchain.Show.Lines.{Sent, line_of}
use mq.Demo.Tools.{find_ids, ack_found}
use mq.Demo.Tools.Ids.{find_ids-lines}

-- What a result that is not an exception is.
abbrev or_nil : {A : Type 0} → Result (List A) → List A
or_nil (ok xs) = xs
or_nil (raise e) = []

-- Of a list whose items are all mapped, the last one is mapped last.
map_result-last :
    {A B : Type 0} (f : A → Result B) (xs : List A) (x : A) (y : B) (ys : List B)
    → f x ≡ ok y
    → map_result f (xs ++ x ∷ []) ≡ ok ys
    → (zs : List B) × (ys ≡ zs ++ y ∷ [])
unfolding map_result
map_result-last f [] x y ys p q = ([], sym (ap or_nil (rw p at q)))
map_result-last f (w ∷ xs) x y ys p q =
    by_first (λ vs d. map_result-last f xs x y vs p d) (f w) refl
  where
    by_first :
        ((vs : List _) → map_result f (xs ++ x ∷ []) ≡ ok vs → (zs : List _) × (vs ≡ zs ++ y ∷ []))
        → (r : Result _) → f w ≡ r
        → (zs : List _) × (ys ≡ zs ++ y ∷ [])
    by_first rest (ok v) e = by_rest (map_result f (xs ++ x ∷ [])) refl
      where
        by_rest :
            (r : Result (List _))
            → map_result f (xs ++ x ∷ []) ≡ r
            → (zs : List _) × (ys ≡ zs ++ y ∷ [])
        by_rest (ok vs) d =
            let (zs, g) = rest vs d in
            (v ∷ zs, sym (ap or_nil (rw (e, d) at q)) ∙ ap (λ l. v ∷ l) g)
        by_rest (raise a) d = absurd (cc (rw (e, d) at q))
    by_first rest (raise a) e = absurd (cc (rw e at q))

-- A message whose payload is shown as a text and whose id is shown as a number.
pub record IsShown {S : Type 0} (env : Env S) (msg : Message) : Type 0 where
  pub text : Text
  pub shown : content env.loads env.format msg.payload ≡ ok text
  pub number_of : ℕ
  pub printed : env.format msg.msg_id ≡ decimal number_of

module _ {S : Type 0} (env : Env S) where
  abbrev sent : (msg : Message) → IsShown env msg → Sent
  sent msg h = record {
    id = msg.msg_id;
    text = h.text;
    priority = msg.priority;
    created = msg.create_time;
    bytes = [];
  }

  message_line-line_of :
      (msg : Message) (h : IsShown env msg)
      → message_line env.loads env.format msg
        ≡ ok (line_of (λ b. ok msg.msg_id) env.format (sent msg h))
  unfolding message_line
  message_line-line_of msg h = rw h.shown refl

  -- The ids in the text for some messages: last those in the last message's own text, and before
  -- these the message's id.
  find_ids-message_lines :
      (header : Text) (msgs : List Message) (msg : Message) (h : IsShown env msg) (result : Text)
      → message_lines env.loads env.format header (msgs ++ msg ∷ []) ≡ ok result
      → (before : List Text) × (find_ids result ≡ find_ids h.text ++ decimal h.number_of ∷ before)
  unfolding message_lines
  find_ids-message_lines header msgs msg h result =
      by_lines (map_result (message_line env.loads env.format) (msgs ++ msg ∷ [])) refl
    where
      by_lines :
          (r : Result (List Text))
          → map_result (message_line env.loads env.format) (msgs ++ msg ∷ []) ≡ r
          → mq.Py.Exceptions.◌>>=◌ r (λ lines. ok (join newline (header ∷ lines))) ≡ ok result
          → (before : List Text) × (find_ids result
              ≡ find_ids h.text ++ decimal h.number_of ∷ before)
      by_lines (ok ls) e p =
          let (zs, q) =
            map_result-last (message_line env.loads env.format) msgs msg _ ls
              (message_line-line_of msg h) e in
          let (before, found) =
            find_ids-lines env.format header zs (sent msg h)
              (record { number_of = h.number_of; printed = h.printed }) in
          (
            before,
            ap find_ids (sym (ap or_nil p) ∙ ap (λ (ls : List Text). join newline (header ∷ ls)) q)
                ∙ found,
          )
      by_lines (raise x) e p = absurd (cc p)

  -- The number that the demo acknowledges, when these ids are found in the last message's own text
  -- and the message itself has the number `n`.
  abbrev pub acked : List Text → ℕ → ℕ
  acked [] n = n
  acked (id ∷ ids) n = value_from 0 id

  -- What the demo makes of a text that the fetch tool shows for messages, when the payload of the
  -- last one is shown as a text and its id as a number: it acknowledges the last message, or, when
  -- this message's own text has "msg_id=" with a number, the last such number in it. No id that is
  -- shown before it, in the header or for another message, plays a part.
  pub ack_found-last :
      (server address header : Text) (msgs : List Message) (msg : Message) (h : IsShown env msg)
      (result : Text) (s : S)
      → message_lines env.loads env.format header (msgs ++ msg ∷ []) ≡ ok result
      → ack_found env server address (find_ids result) s
        ≡ (do
          _ ← ack_messages_tool env server (record {
            mail_address = address;
            group_name = codes "langchain";
            msg_id = pos (acked (find_ids h.text) h.number_of);
          })
          pure tt)
            s
  unfolding ack_found
  ack_found-last server address header msgs msg h result s e =
      let (before, p) = find_ids-message_lines header msgs msg h result e in
      rw p (by_found (find_ids h.text) before)
    where
      by_found :
          (own before : List Text)
          → ack_found env server address (own ++ decimal h.number_of ∷ before) s
            ≡ (do
              _ ← ack_messages_tool env server (record {
                mail_address = address;
                group_name = codes "langchain";
                msg_id = pos (acked own h.number_of);
              })
              pure tt)
                s
      by_found [] before = rw (value_from-decimal h.number_of) refl
      by_found (id ∷ own) before = refl
