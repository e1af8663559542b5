-- ===== src/A2a/TaskStore/Refines.antt =====
-- The task store as a map from ids to tasks, which is what `TaskStore` of a2a-sdk promises.
use mq.Base.{
  Text, Bytes, text_eq, text_eq_iff, Option, none, some, List, [], ◌∷◌, ◌++◌, All, Bool, true,
  false, Bool-cases, inl, inr, ◌≡◌, ◌≢◌, refl, ap, sym, subst, ◌∙◌, arith, if◌then◌else◌,
}
use mq.Py.Exceptions.{Result, ok}
use mq.Py.Json.{Json}
use mq.Py.Scan.RoundTrip.{IsScalar}
use mq.Py.Base64.RoundTrip.{IsByte}
use mq.Client.Types.{Env, Mq9Client, decoded}
use mq.Client.Messaging.{query}
use mq.A2a.Types.{Sdk}
use mq.A2a.TaskStore.{TaskStore, key_prefix, save, get}
use mq.A2a.TaskStore.Keyed.{
  ReturnsLatest, post, look, answer, get-answer, get-save, get-save_other, key_of-ne,
}

-- A text of Unicode characters, as every string of protobuf is.
abbrev pub IsUnicode : Text → Type 0
IsUnicode = All IsScalar

-- What protocol.md promises of the mailbox of a store: the latest message of a key is returned, the
-- messages of other keys are kept, a query changes nothing, and every message is accepted.
pub record IsKeyed {S : Type 0} (env : Env S) (c : Mq9Client S) (box : Text) : Type 0 where
  pub latest : ReturnsLatest env c box
  pub others :
      (k j : Text) (b : Bytes) (s : S)
      → IsUnicode k
      → IsUnicode j
      → k ≢ j
      → look env c box j (post env c box k b s).1 ≡ look env c box j s
  pub read_only :
      (k j : Text) (s : S)
      → look env c box j (query env c box (some k) none none s).1 ≡ look env c box j s
  pub accepts : (k : Text) (b : Bytes) (s : S) → (i : Json) × ((post env c box k b s).0 ≡ ok i)

prefixed : (i : Text) → IsUnicode i → IsUnicode (key_prefix ++ i)
prefixed i u =
    let a : ◌≡◌ {A = Bool} false false = refl in
    (
      (omega arith, a),
      ((omega arith, a), ((omega arith, a), ((omega arith, a), ((omega arith, a), u)))),
    )

module _ (sdk : Sdk) where
  open sdk use {Task, id_of, task_json, parse_task}

  -- `json_format` reads back what it prints.
  pub record Prints : Type 0 where
    pub printed : Task → Bytes
    pub prints : (t : Task) → task_json t ≡ ok (printed t)
    pub bytes : (t : Task) → All IsByte (printed t)
    pub unicode : (t : Task) → IsUnicode (id_of t)
    pub reads : (t : Task) → parse_task (decoded (printed t)) ≡ ok t

  pub data Call : Type 0 where
    saves : Task → Call
    gets : Text → Call

  abbrev pub Tasks : Type 0
  Tasks = Text → Option Task

  abbrev pub put : Task → Tasks → Tasks
  put t m i = if text_eq (id_of t) i then some t else m i

  -- An id that is asked for is a text of Unicode characters.
  abbrev pub IsProper : Call → Type 0
  IsProper (saves t) = Unit
  IsProper (gets i) = IsUnicode i

  -- The same calls on a map: what the reads return, and the map that is left.
  unfoldable pub replay : List Call → Tasks → List (Result (Option Task)) × Tasks
  replay [] m = ([], m)
  replay (saves t ∷ calls) m = replay calls (put t m)
  replay (gets i ∷ calls) m = (ok (m i) ∷ (replay calls m).0, (replay calls m).1)

  module _ {S : Type 0} (env : Env S) (store : TaskStore S) where
    -- What the reads of the store return, and the state that is left.
    unfoldable pub run : List Call → S → List (Result (Option Task)) × S
    run [] s = ([], s)
    run (saves t ∷ calls) s = run calls (save sdk env store t s).1
    run (gets i ∷ calls) s =
        let rest = run calls (get sdk env store i s).1 in
        ((get sdk env store i s).0 ∷ rest.0, rest.1)

    -- The store reads as the map.
    abbrev pub ReadsAs : S → Tasks → Type 0
    ReadsAs s m = (i : Text) → IsUnicode i → (get sdk env store i s).0 ≡ ok (m i)

    module _ (ready : store.ready ≡ true) (keyed : IsKeyed env store.mq9 store.mailbox)
        (prints : Prints) where
      state-get :
          (i : Text) (s : S)
          → (get sdk env store i s).1
            ≡ (query env store.mq9 store.mailbox (some (key_prefix ++ i)) none none s).1
      unfolding get
      state-get i s = rw ready (ground (arith))

      get-ReadsAs :
          (i : Text) (s : S) (m : Tasks) → ReadsAs s m → ReadsAs (get sdk env store i s).1 m
      get-ReadsAs i s m h j u =
          get-answer sdk env store ready j _
          ∙ ap (answer sdk env store ready) (
              ap (look env store.mq9 store.mailbox (key_prefix ++ j)) (state-get i s)
              ∙ keyed.read_only (key_prefix ++ i) (key_prefix ++ j) s)
          ∙ sym (get-answer sdk env store ready j s)
          ∙ h j u

      save-ReadsAs :
          (t : Task) (s : S) (m : Tasks)
          → ReadsAs s m
          → ReadsAs (save sdk env store t s).1 (put t m)
      save-ReadsAs t s m h j u = elim (Bool-cases (text_eq (id_of t) j)) [
        | inl e ↦
            let (i, accepted) = keyed.accepts (key_prefix ++ id_of t) (prints.printed t) s in
            rw e (
              subst (λ k. (get sdk env store k (save sdk env store t s).1).0 ≡ ok (some t))
                ((text_eq_iff (id_of t) j).0 e)
                (get-save sdk env store ready keyed.latest t (prints.printed t) s i
                  (prints.prints t) (prints.bytes t) (prints.reads t) accepted))
        | inr e ↦ rw e (
            get-save_other sdk env store ready t (prints.printed t) j s (prints.prints t) (
              keyed.others (key_prefix ++ id_of t) (key_prefix ++ j) (prints.printed t) s
                (prefixed (id_of t) (prints.unicode t)) (prefixed j u)
                (key_of-ne sdk env store ready (id_of t) j (not_same (id_of t) j e)))
            ∙ h j u)
      ]
        where
          not_same : (i j : Text) → text_eq i j ≡ false → i ≢ j
          not_same i j e p = cc ((text_eq_iff i j).1 p)

      -- For a store that is ready, over a mailbox that keeps what protocol.md promises, and tasks
      -- that are read back as they are printed, with ids of Unicode characters: from a state that
      -- reads as a map, any sequence of saves and reads returns what the same calls on the map
      -- return, and leaves a state that reads as the map that they leave.
      pub run_refines :
          (calls : List Call) (s : S) (m : Tasks)
          → All IsProper calls
          → ReadsAs s m
          → ((run calls s).0 ≡ (replay calls m).0) × ReadsAs (run calls s).1 (replay calls m).1
      unfolding run replay
      run_refines [] s m p h = (refl, h)
      run_refines (saves t ∷ calls) s m p h =
          run_refines calls (save sdk env store t s).1 (put t m) p.1 (save-ReadsAs t s m h)
      run_refines (gets i ∷ calls) s m p h =
          let r = run_refines calls (get sdk env store i s).1 m p.1 (get-ReadsAs i s m h) in
          (cc (h i p.0, r.0), r.1)
