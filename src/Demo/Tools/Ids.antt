-- ===== src/Demo/Tools/Ids.antt =====
-- The ids that the demo of the tools finds in lines of messages.
use mq.Base.{
  ℕ, Text, codes, ◌==◌, Bool-cases, inl, inr, append-nil, true, false, List, [], ◌∷◌, ◌++◌, All,
  append_assoc, ◌≡◌, ◌≢◌, refl, ap, sym, ◌∙◌, arith, if◌then◌else◌,
}
use mathlib.Core.List.{foldl, foldl-append}
use mq.Base.Decimal.{decimal}
use mq.Base.Decimal.Parse.{IsDigit, decimal-IsDigit, decimal-full}
use mq.Py.Exceptions.{ok}
use mq.Py.Json.{Json}
use mq.Py.Text.{join}
use mq.Client.Types.{Priority, normal, urgent, critical, value}
use mq.Langchain.Show.{newline}
use mq.Langchain.Show.Lines.{Sent, line_of}
use mq.Demo.Tools.{
  Place, expects, number, Search, step, finish, fresh, restart, go_on, push, find_ids, is_digit,
}

abbrev after : Search → Text → Search
after r text = foldl step r text

abbrev at : Place → List Text → Search
at p found = record { place = p; found = found }

-- The search expects no blank.
abbrev NoBlank : Place → Type 0
NoBlank (expects p ps) = All (λ c. c ≢ 32) (p ∷ ps)
NoBlank (number s) = Unit

restart-NoBlank : (c : ℕ) → NoBlank (restart c)
restart-NoBlank c = elim (Bool-cases (c == b'm')) [
  | inl e ↦ rw e blanks
  | inr e ↦ rw e (omega arith, blanks)
]
  where
    blanks : All (λ c. c ≢ 32) (codes "sg_id=")
    blanks =
        (omega arith, (omega arith, (omega arith, (omega arith, (omega arith, (omega arith, tt))))))

go_on-NoBlank : (ps : Text) → All (λ c. c ≢ 32) ps → NoBlank (go_on ps)
go_on-NoBlank [] h = tt
go_on-NoBlank (p ∷ ps) h = h

step-NoBlank :
    (p : Place) (found : List Text) (c : ℕ) → NoBlank p → NoBlank (step (at p found) c).place
unfolding step
step-NoBlank (expects p ps) found c h = elim (Bool-cases (c == p)) [
  | inl e ↦ rw e (go_on-NoBlank ps h.1)
  | inr e ↦ rw e (restart-NoBlank c)
]
step-NoBlank (number s) found c h = elim (Bool-cases (is_digit c)) [
  | inl e ↦ rw e tt
  | inr e ↦ rw e (restart-NoBlank c)
]

after-NoBlank : (r : Search) (t : Text) → NoBlank r.place → NoBlank (after r t).place
after-NoBlank r [] h = h
after-NoBlank r (c ∷ t) h = after-NoBlank (step r c) t (step-NoBlank r.place r.found c h)

-- A blank ends a number, and is no part of what the search looks for.
step-blank :
    (p : Place) (found : List Text) → NoBlank p → step (at p found) 32 ≡ fresh (finish (at p found))
unfolding step
step-blank (expects p ps) found h = rw (no_blank p h.0)
  where
    no_blank : (p : ℕ) → p ≢ 32 → (32 == p) ≡ false
    no_blank p h = ground (arith, h)
step-blank (number s) found h = refl

step-digit :
    (s : Text) (found : List Text) (c : ℕ)
    → IsDigit c
    → step (at (number s) found) c ≡ at (number (s ++ c ∷ [])) found
unfolding step
step-digit s found c h = rw (is_one c h) refl
  where
    is_one : (c : ℕ) → IsDigit c → is_digit c ≡ true
    is_one c h = ground (arith, h.0, h.1)

-- The digits of a number are read into it.
after-digits :
    (s ds rest : Text) (found : List Text)
    → All IsDigit ds
    → after (at (number s) found) (ds ++ rest) ≡ after (at (number (s ++ ds)) found) rest
after-digits s [] rest found h =
    ap (λ (v : Text). after (at (number v) found) rest) (sym (append-nil s))
after-digits s (c ∷ ds) rest found h =
    ap (λ (r : Search). after r (ds ++ rest)) (step-digit s found c h.0)
    ∙ after-digits (s ++ c ∷ []) ds rest found h.1
    ∙ ap (λ (v : Text). after (at (number v) found) rest) (append_assoc s (c ∷ []) ds)

push-full : (ds : Text) (found : List Text) → ds ≢ [] → push ds found ≡ ds ∷ found
push-full [] found h = absurd (h refl)
push-full (c ∷ ds) found h = refl

-- What stands between the id of a message and its text has no id in it.
after-priority :
    (p : Priority) (found : List Text) (t : Text)
    → after (fresh found) (codes " priority=" ++ (value p ++ (codes "  content=" ++ t)))
      ≡ after (fresh found) t
unfolding step
after-priority normal found t = refl
after-priority urgent found t = refl
after-priority critical found t = refl

module _ (format : Json → Text) where
  -- The id is a number, printed in decimal.
  pub record HasNumber (m : Sent) : Type 0 where
    pub number_of : ℕ
    pub printed : format m.id ≡ decimal number_of

  abbrev tail : Sent → Text
  tail m = codes " priority=" ++ (value m.priority ++ (codes "  content=" ++ m.text))

  after-number :
      (n : ℕ) (found : List Text) (m : Sent)
      → after (at (number []) found) (decimal n ++ 32 ∷ tail m)
        ≡ after (fresh (decimal n ∷ found)) m.text
  after-number n found m =
      after-digits [] (decimal n) (32 ∷ tail m) found (decimal-IsDigit n)
      ∙ ap (λ (r : Search). after r (tail m)) (step-blank (number (decimal n)) found tt)
      ∙ ap (λ (ids : List Text). after (fresh ids) (tail m))
          (push-full (decimal n) found (decimal-full n))
      ∙ after-priority m.priority (decimal n ∷ found) m.text

  -- The line of a message, wherever the search is before it.
  after-line :
      (m : Sent) (h : HasNumber m) (p : Place) (found : List Text)
      → NoBlank p
      → after (at p found) (line_of (λ b. ok m.id) format m)
        ≡ after (fresh (decimal h.number_of ∷ finish (at p found))) m.text
  unfolding step
  after-line m h p found blank =
      ap (λ (r : Search). after r (codes " msg_id=" ++ (format m.id ++ 32 ∷ tail m)))
        (step-blank p found blank)
      ∙ ap (λ (ds : Text). after (at (number []) (finish (at p found))) (ds ++ 32 ∷ tail m))
          h.printed
      ∙ after-number h.number_of (finish (at p found)) m

  push-append : (s : Text) (f g : List Text) → push s (f ++ g) ≡ push s f ++ g
  push-append [] f g = refl
  push-append (c ∷ s) f g = refl

  -- Earlier ids are in front of those that a text adds.
  finish-after :
      (p : Place) (f g : List Text) (t : Text)
      → finish (after (at p (f ++ g)) t) ≡ finish (after (at p f) t) ++ g
  unfolding step
  finish-after (expects p ps) f g [] = refl
  finish-after (number []) f g [] = refl
  finish-after (number (c ∷ s)) f g [] = refl
  finish-after (expects p ps) f g (c ∷ t) =
      finish-after (if c == p then go_on ps else restart c) f g t
  finish-after (number s) f g (c ∷ t) = elim (Bool-cases (is_digit c)) [
    | inl e ↦ rw e (finish-after (number (s ++ c ∷ [])) f g t)
    | inr e ↦ rw e (
        ap (λ (ids : List Text). finish (after (at (restart c) ids) t)) (push-append s f g)
        ∙ finish-after (restart c) (push s f) g t)
  ]

  -- Some lines, and the line of `m` after them.
  abbrev lines : List Text → Sent → Text
  lines ls m = join newline (ls ++ line_of (λ b. ok m.id) format m ∷ [])

  join-more :
      (x : Text) (ls : List Text) (m : Sent)
      → join newline (x ∷ (ls ++ line_of (λ b. ok m.id) format m ∷ [])) ≡ x ++ 10 ∷ lines ls m
  unfolding join
  join-more x [] m = refl
  join-more x (l ∷ ls) m = refl

  -- The search has gone through a text and the end of its line.
  abbrev past : Search → Text → Search
  past r x = step (after r x) 10

  past-NoBlank : (r : Search) (x : Text) → NoBlank r.place → NoBlank (past r x).place
  past-NoBlank r x h = step-NoBlank (after r x).place (after r x).found 10 (after-NoBlank r x h)

  after-more :
      (x : Text) (ls : List Text) (m : Sent) (r : Search)
      → after r (join newline (x ∷ (ls ++ line_of (λ b. ok m.id) format m ∷ [])))
        ≡ after (past r x) (lines ls m)
  after-more x ls m r = ap (after r) (join-more x ls m) ∙ foldl-append step r x (10 ∷ lines ls m)

  -- The ids in some lines and the line of a message end with that of the message and those in its
  -- text.
  after-lines :
      (ls : List Text) (m : Sent) (h : HasNumber m) (r : Search)
      → NoBlank r.place
      → (before : List Text) × (after r (lines ls m)
          ≡ after (fresh (decimal h.number_of ∷ before)) m.text)
  unfolding join
  after-lines [] m h r blank = (finish r, after-line m h r.place r.found blank)
  after-lines (l ∷ ls) m h r blank =
      let (before, e) = after-lines ls m h (past r l) (past-NoBlank r l blank) in
      (before, after-more l ls m r ∙ e)

  -- Of the ids in some lines and the line of a message after them, those in the text of the message
  -- come last, and the id of the message comes right before them.
  pub find_ids-lines :
      (header : Text) (ls : List Text) (m : Sent) (h : HasNumber m)
      → (before : List Text) × (find_ids
            (join newline (header ∷ (ls ++ line_of (λ b. ok m.id) format m ∷ [])))
          ≡ find_ids m.text ++ decimal h.number_of ∷ before)
  unfolding find_ids
  find_ids-lines header ls m h =
      let start = fresh [] in
      let (before, e) =
        after-lines ls m h (past start header) (past-NoBlank start header fresh-NoBlank) in
      (
        before,
        ap finish (after-more header ls m start ∙ e)
            ∙ finish-after (expects b'm' (codes "sg_id=")) [] (decimal h.number_of ∷ before) m.text,
      )
    where
      fresh-NoBlank : All (λ c. c ≢ 32) (codes "msg_id=")
      fresh-NoBlank = (
        omega arith,
        (
          omega arith,
          (omega arith, (omega arith, (omega arith, (omega arith, (omega arith, tt))))),
        ),
      )
