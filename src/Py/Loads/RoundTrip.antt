-- ===== src/Py/Loads/RoundTrip.antt =====
-- That `json.loads` reads back what `json.dumps` writes.
pub mod Numbers
use mq.Base.{
  ℕ, zero, suc, ◌+◌, ◌≤◌, ◌==◌, leb, ◌&&◌, ◌||◌, Text, Bytes, text_eq, codes, ℤ, pos, negsuc, Bool,
  true, false, Option, none, some, List, [], ◌∷◌, ◌++◌, All, append_assoc, append-nil, ◌≡◌, refl,
  ap, sym, ◌∙◌, arith, if◌then◌else◌,
}
use mathlib.Core.List.{foldl, foldl-append}
use mq.Py.Exceptions.{Result, ok, raise}
use mq.Py.Dumps.Ascii.{IsAscii, dumps-IsAscii, utf8_encode-dumps}
use mq.Py.Utf8.Decode.RoundTrip.{IsCodePoint, utf8_decode-utf8_encode}
use mq.Py.Json.{Json, null, bool, int, str, arr, obj, Items, nil, cons, Fields, end, field, set}
use mq.Py.Dumps.{dumps, dump_items, dump_fields, dump_str, dump_chars}
use mq.Py.Scan
use mq.Py.Scan.{Next, scan, scan_step, goes_on, ends, refuses, prepend}
use mq.Py.Scan.RoundTrip.{IsScalar, scan-dump_chars}
use mq.Py.Loads.Readable.{
  IsReadable, AreReadable, HasReadable, Absent, Apart, append_fields, set-Absent, Apart-snoc,
  Apart-end, append_fields_assoc, append_items_assoc, append_items-nil, append_fields-end,
}
use mq.Py.Loads.RoundTrip.Numbers.{Stops, after-int, item-int, step-complete}
use mq.Py.Loads.{
  Frame, in_array, in_object, Mode, value, item_or_close, key_or_close, key, colon, in_str, word,
  signed, zeroed, number, after_item, after_member, done, failed, State, at, complete, begin,
  after_value, step, after, append_items, loads_text, loads, spoken, heard, outcome,
}

prepend-inv :
    (more : Text) (r : Result (Text × Text)) (t rest : Text)
    → prepend more r ≡ ok (t, rest)
    → (t' : Text) × (r ≡ ok (t', rest)) × (t ≡ more ++ t')
prepend-inv more (ok (t', rest')) t rest p = (t', cc p, cc p)
prepend-inv more (raise e) t rest p = absurd (cc p)

module _ (o : Option Fields) (k : List Frame) where
  -- After a string that the scanner of `Py.Scan` reads, whatever has been read of it before.
  after-in_str :
      (s out t rest : Text) (m : Scan.Mode)
      → scan m s ≡ ok (t, rest)
      → after (at (in_str o out m) k) s ≡ after (spoken o (out ++ t) k) rest
  unfolding scan step
  after-in_str [] out t rest m h = absurd (cc h)
  after-in_str (c ∷ s) out t rest m h = by_next (scan_step m c) refl (after-in_str s)
    where
      go : Result (Text × Text) → State
      go (ok (t, rest)) = after (spoken o (out ++ t) k) rest
      go (raise e) = at failed []

      by_next :
          (n : Next)
          → scan_step m c ≡ n
          → ((out t rest : Text) (m : Scan.Mode)
              → scan m s ≡ ok (t, rest)
              → after (at (in_str o out m) k) s ≡ after (spoken o (out ++ t) k) rest)
          → after (at (in_str o out m) k) (c ∷ s) ≡ after (spoken o (out ++ t) k) rest
      by_next (goes_on more m') e ih =
          let (t', read, split) = prepend-inv more (scan m' s) t rest (rw (e, scan) at h) in
          ap (λ (x : Next). after (heard o out k x) s) e
          ∙ ih (out ++ more) t' rest m' read
          ∙ ap (λ (u : Text). after (spoken o u k) rest)
              (append_assoc out more t' ∙ ap (λ (u : Text). out ++ u) (sym split))
      by_next (ends more) e ih =
          let h' : ◌≡◌ {A = Result (Text × Text)} (ok (more, s)) (ok (t, rest)) =
            (rw (e, scan) at h) in
          ap (λ (x : Next). after (heard o out k x) s) e
          ∙ ap (λ (p : Result (Text × Text)). go p) h'
      by_next refuses e ih = absurd (cc (rw (e, scan) at h))

spell_out :
    (o : Option Fields) (s rest : Text) (k : List Frame)
    → All IsScalar s
    → after (at (in_str o [] Scan.plain) k) ((dump_chars s ++ 34 ∷ []) ++ rest)
      ≡ after (spoken o s k) rest
spell_out o s rest k h =
    ap (after (at (in_str o [] Scan.plain) k)) (append_assoc (dump_chars s) (34 ∷ []) rest)
    ∙ after-in_str o k (dump_chars s ++ 34 ∷ rest) [] s rest Scan.plain (scan-dump_chars s rest h)

-- The first character of a value closes no array.
item-value :
    (v : Json) (rest : Text) (k : List Frame)
    → after (at item_or_close k) (dumps v ++ rest)
      ≡ after (at value (in_array nil ∷ k)) (dumps v ++ rest)
unfolding dumps dump_str step
item-value null rest k = refl
item-value (bool true) rest k = refl
item-value (bool false) rest k = refl
item-value (int i) rest k = item-int i rest k
item-value (str s) rest k = refl
item-value (arr nil) rest k = refl
item-value (arr (cons v vs)) rest k = refl
item-value (obj end) rest k = refl
item-value (obj (field n v d)) rest k = refl

items-Stops : (vs : Items) (rest : Text) → Stops (dump_items vs ++ rest)
unfolding dumps
items-Stops nil rest = (refl, refl)
items-Stops (cons v vs) rest = (refl, refl)

fields-Stops : (d : Fields) (rest : Text) → Stops (dump_fields d ++ rest)
unfolding dumps
fields-Stops end rest = (refl, refl)
fields-Stops (field k v d) rest = (refl, refl)

-- A member is read, if its value and the members after it are.
read-member :
    (n : Text) (v : Json) (d acc : Fields) (rest : Text) (k : List Frame)
    → All IsScalar n
    → Absent n acc
    → after (at value (in_object acc n ∷ k)) (dumps v ++ (dump_fields d ++ rest))
      ≡ after (complete v (in_object acc n ∷ k)) (dump_fields d ++ rest)
    → after (at (after_member (append_fields acc (field n v end))) k) (dump_fields d ++ rest)
      ≡ after (complete (obj (append_fields (append_fields acc (field n v end)) d)) k) rest
    → after
        (at (in_str (some acc) [] Scan.plain) k)
        ((dump_chars n ++ 34 ∷ []) ++ (codes ": " ++ (dumps v ++ (dump_fields d ++ rest))))
      ≡ after (complete (obj (append_fields acc (field n v d))) k) rest
unfolding step
read-member n v d acc rest k hn fresh value_read rest_read =
    spell_out (some acc) n (codes ": " ++ (dumps v ++ (dump_fields d ++ rest))) k hn
    ∙ value_read
    ∙ ap (λ (e : Fields). after (at (after_member e) k) (dump_fields d ++ rest))
        (set-Absent n v acc fresh)
    ∙ rest_read
    ∙ ap (λ (e : Fields). after (complete (obj e) k) rest) (append_fields_assoc acc n v d)

member_assoc :
    (a b c r : Text) → (a ++ (codes ": " ++ (b ++ c))) ++ r ≡ a ++ (codes ": " ++ (b ++ (c ++ r)))
member_assoc a b c r =
    append_assoc a (codes ": " ++ (b ++ c)) r
    ∙ ap (λ (t : Text). a ++ (codes ": " ++ t)) (append_assoc b c r)

mutual
  unfolding dumps dump_str step begin

  -- The machine reads a value, when something comes after it that cannot go on with a number.
  read-value :
      (v : Json) (rest : Text) (k : List Frame)
      → IsReadable v
      → Stops rest
      → after (at value k) (dumps v ++ rest) ≡ after (complete v k) rest
  read-value null rest k h w = refl
  read-value (bool true) rest k h w = refl
  read-value (bool false) rest k h w = refl
  read-value (int i) rest k h w = after-int i rest k w
  read-value (str s) rest k h w = spell_out none s rest k h
  read-value (arr nil) rest k h w = refl
  read-value (arr (cons v vs)) rest k h w =
      ap (after (at item_or_close k)) (append_assoc (dumps v) (dump_items vs) rest)
      ∙ item-value v (dump_items vs ++ rest) k
      ∙ read-value v (dump_items vs ++ rest) (in_array nil ∷ k) h.0 (items-Stops vs rest)
      ∙ read-items vs (cons v nil) rest k h.1
  read-value (obj end) rest k h w = refl
  read-value (obj (field n v d)) rest k h w =
      ap (after (at key_or_close k)) (member_assoc (dump_str n) (dumps v) (dump_fields d) rest)
      ∙ read-member n v d end rest k h.0 tt
          (read-value v (dump_fields d ++ rest) (in_object end n ∷ k) h.1 (fields-Stops d rest))
          (read-fields d (field n v end) rest k h.3 (Apart-snoc n v end d (Apart-end d) h.2))

  -- The items after some others, and the bracket.
  read-items :
      (vs acc : Items) (rest : Text) (k : List Frame)
      → AreReadable vs
      → after (at (after_item acc) k) (dump_items vs ++ rest)
        ≡ after (complete (arr (append_items acc vs)) k) rest
  read-items nil acc rest k h =
      ap (λ (vs : Items). after (complete (arr vs) k) rest) (sym (append_items-nil acc))
  read-items (cons v vs) acc rest k h =
      ap (after (at value (in_array acc ∷ k))) (append_assoc (dumps v) (dump_items vs) rest)
      ∙ read-value v (dump_items vs ++ rest) (in_array acc ∷ k) h.0 (items-Stops vs rest)
      ∙ read-items vs (append_items acc (cons v nil)) rest k h.1
      ∙ ap (λ (us : Items). after (complete (arr us) k) rest) (append_items_assoc acc v vs)

  -- The members after some others, and the brace.
  read-fields :
      (d acc : Fields) (rest : Text) (k : List Frame)
      → HasReadable d
      → Apart acc d
      → after (at (after_member acc) k) (dump_fields d ++ rest)
        ≡ after (complete (obj (append_fields acc d)) k) rest
  read-fields end acc rest k h a =
      ap (λ (e : Fields). after (complete (obj e) k) rest) (sym (append_fields-end acc))
  read-fields (field n v d) acc rest k h a =
      ap (after (at (key acc) k)) (member_assoc (dump_str n) (dumps v) (dump_fields d) rest)
      ∙ read-member n v d acc rest k h.0 a.0
          (read-value v (dump_fields d ++ rest) (in_object acc n ∷ k) h.1 (fields-Stops d rest))
          (read-fields d (append_fields acc (field n v end)) rest k h.3
            (Apart-snoc n v acc d a.1 h.2))

-- Every value whose strings are of Unicode characters, and whose objects have no key twice, is read
-- back from the text that `json.dumps` makes of it.
pub loads_text-dumps : (v : Json) → IsReadable v → loads_text (dumps v) ≡ ok v
unfolding loads_text step
loads_text-dumps v h = ap outcome (read-value v (32 ∷ []) [] h (refl, refl))

pub ascii-IsCodePoint : (t : Text) → IsAscii t → All IsCodePoint t
ascii-IsCodePoint [] h = tt
ascii-IsCodePoint (c ∷ t) h = (omega (arith, h.0), ascii-IsCodePoint t h.1)

-- The same of the bytes that the text is encoded in.
pub loads-dumps : (v : Json) → IsReadable v → loads (dumps v) ≡ ok v
unfolding loads
loads-dumps v h =
    rw
      (utf8_decode-utf8_encode (dumps v) (dumps v) (ascii-IsCodePoint _ (dumps-IsAscii v))
        (utf8_encode-dumps v))
      (loads_text-dumps v h)

-- A JSON reader: it takes the text that `json.dumps` makes of a value back to that value.
pub record Reads (read : Bytes → Result Json) : Type 0 where
  pub reads : (v : Json) → IsReadable v → read (dumps v) ≡ ok v

pub loads-Reads : Reads loads
loads-Reads = record { reads = loads-dumps }
