-- ===== src/Client/Headers/Decode.antt =====
-- What a receiver reads from the headers of a message, after the table of protocol.md, and that it
-- reads back what `send` was given.
use mathlib.Core.Option
use mq.Base.{
  ℕ, Text, codes, text_eq, ℤ, Option, none, some, List, [], ◌∷◌, ◌++◌, All, ◌≡◌, ◌≢◌, refl, ap, ◌∙◌,
  arith, ◌==◌, if◌then◌else◌,
}
use mq.Base.Decimal.{str_int}
use mq.Base.Decimal.Parse.{parse_int, parse_int-str_int}
use mq.Py.Dict.{Headers, lookup, lookup-insert}
use mq.Client.Types.{Priority, normal, urgent, critical}
use mq.Client.Headers.{Options, join, headers_of, set_header, priority_value, tags_value}

prepend : ℕ → List Text → List Text
prepend c [] = (c ∷ []) ∷ []
prepend c (t ∷ ts) = (c ∷ t) ∷ ts

-- The parts of a text between its commas.
split : Text → List Text
unfolding prepend
split [] = [] ∷ []
split (c ∷ s) = let rest = split s in if c == b',' then [] ∷ rest else prepend c rest

abbrev pub HasNoComma : Text → Type 0
HasNoComma = All (λ c. c ≢ b',')

split-one : (t : Text) → HasNoComma t → split t ≡ t ∷ []
unfolding split
split-one [] h = refl
split-one (c ∷ t) h = ground (arith, split-one t h.1, h.0)

split-append : (t s : Text) → HasNoComma t → split (t ++ b',' ∷ s) ≡ t ∷ split s
unfolding split
split-append [] s h = refl
split-append (c ∷ t) s h = ground (arith, split-append t s h.1, h.0)

split-join : (t : Text) (ts : List Text) → All HasNoComma (t ∷ ts) → split (join (t ∷ ts)) ≡ t ∷ ts
unfolding join
split-join t [] h = split-one t h.0
split-join t (u ∷ ts) h = rw (split-append t (join (u ∷ ts)) h.0, split-join u ts h.1)

-- Without a priority header the priority is `normal`.
read_priority : Option Text → Priority
read_priority none = normal
read_priority (some v) =
    if text_eq v (codes "urgent")
    then urgent
    else if text_eq v (codes "critical")
    then critical
    else normal

pub decode : Headers → Options
decode h = record {
  priority = read_priority (lookup (codes "mq9-priority") h);
  key = lookup (codes "mq9-key") h;
  delay = Option.map parse_int (lookup (codes "mq9-delay") h);
  ttl = Option.map parse_int (lookup (codes "mq9-ttl") h);
  tags = Option.map split (lookup (codes "mq9-tags") h);
}

-- Tags can be told apart in a comma-separated list: there is at least one, and none has a comma.
abbrev pub HasPlainTags : Option (List Text) → Type 0
HasPlainTags none = Unit
HasPlainTags (some []) = ⊥
HasPlainTags (some (t ∷ ts)) = All HasNoComma (t ∷ ts)

pub or_else : Option Text → Option Text → Option Text
or_else none w = w
or_else (some v) w = some v

pub lookup-set_header :
    (j k : Text) (v : Option Text) (h : Headers)
    → lookup j (set_header k v h) ≡ (if text_eq k j then or_else v (lookup j h) else lookup j h)
unfolding set_header or_else
lookup-set_header j k none h = ground arith
lookup-set_header j k (some v) h = lookup-insert k j v h

map-parse_int : (i : Option ℤ) → Option.map parse_int (Option.map str_int i) ≡ i
map-parse_int none = refl
map-parse_int (some i) = ap some (parse_int-str_int i)

map-split :
    (tags : Option (List Text)) → HasPlainTags tags → Option.map split (tags_value tags) ≡ tags
map-split none h = refl
map-split (some []) h = absurd h
map-split (some (t ∷ ts)) h = ap some (split-join t ts h)

read_priority_lem : (p : Priority) → read_priority (priority_value p) ≡ p
unfolding read_priority text_eq
read_priority_lem normal = refl
read_priority_lem urgent = refl
read_priority_lem critical = refl

pub or_else-none : (v : Option Text) → or_else v none ≡ v
unfolding or_else
or_else-none none = refl
or_else-none (some v) = refl

pub lookup-nil : (j : Text) → lookup j [] ≡ none
unfolding lookup
lookup-nil j = refl

pub ruleset header_laws = (lookup-set_header, or_else-none, lookup-nil)

module _ (o : Options) where
  lookup-headers_of :
      (lookup (codes "mq9-priority") (headers_of o) ≡ priority_value o.priority)
      × (lookup (codes "mq9-key") (headers_of o) ≡ o.key)
      × (lookup (codes "mq9-delay") (headers_of o) ≡ Option.map str_int o.delay)
      × (lookup (codes "mq9-ttl") (headers_of o) ≡ Option.map str_int o.ttl)
      × (lookup (codes "mq9-tags") (headers_of o) ≡ tags_value o.tags)
  unfolding headers_of text_eq
  lookup-headers_of = simp header_laws (refl, refl, refl, refl, refl)

-- A receiver reads from the headers of `send` exactly the options that `send` was given, as long as
-- its tags, if any, are not an empty list and have no comma.
pub decode-headers_of : (o : Options) → HasPlainTags o.tags → decode (headers_of o) ≡ o
unfolding decode
decode-headers_of o h =
    let (p, k, d, t, g) = lookup-headers_of o in
    λ i. record {
      priority = (ap read_priority p ∙ read_priority_lem o.priority) i;
      key = k i;
      delay = (ap (Option.map parse_int) d ∙ map-parse_int o.delay) i;
      ttl = (ap (Option.map parse_int) t ∙ map-parse_int o.ttl) i;
      tags = (ap (Option.map split) g ∙ map-split o.tags h) i;
    }

-- Without headers a message has the priority `normal`.
pub priority-decode-nil : (decode []).priority ≡ normal
unfolding decode lookup read_priority
priority-decode-nil = refl
