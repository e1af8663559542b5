-- ===== src/Py/Loads/Readable.antt =====
-- The values that `json.loads` reads back from their text, and the appending that it does on the
-- way.
use mq.Base.{Text, text_eq, false, All, ◌≡◌, refl, ap}
use mq.Py.Json.{Json, null, bool, int, str, arr, obj, Items, nil, cons, Fields, end, field, set}
use mq.Py.Scan.RoundTrip.{IsScalar}
use mq.Py.Loads.{append_items}

-- A key that an object has not.
abbrev pub Absent : Text → Fields → Type 0
Absent k end = Unit
Absent k (field j v d) = (text_eq j k ≡ false) × Absent k d

-- The key is none of those of the fields.
abbrev pub Differs : Text → Fields → Type 0
Differs k end = Unit
Differs k (field j v d) = (text_eq k j ≡ false) × Differs k d

abbrev mutual
  -- The strings are of Unicode characters, and the keys of an object differ.
  pub IsReadable : Json → Type 0
  IsReadable null = Unit
  IsReadable (bool b) = Unit
  IsReadable (int i) = Unit
  IsReadable (str s) = All IsScalar s
  IsReadable (arr vs) = AreReadable vs
  IsReadable (obj d) = HasReadable d

  pub AreReadable : Items → Type 0
  AreReadable nil = Unit
  AreReadable (cons v vs) = IsReadable v × AreReadable vs

  pub HasReadable : Fields → Type 0
  HasReadable end = Unit
  HasReadable (field k v d) = All IsScalar k × IsReadable v × Differs k d × HasReadable d

abbrev pub append_fields : Fields → Fields → Fields
append_fields end d = d
append_fields (field k v d) e = field k v (append_fields d e)

-- None of the keys of the second is a key of the first.
abbrev pub Apart : Fields → Fields → Type 0
Apart acc end = Unit
Apart acc (field k v d) = Absent k acc × Apart acc d

pub set-Absent :
    (k : Text) (v : Json) (acc : Fields)
    → Absent k acc
    → set k v acc ≡ append_fields acc (field k v end)
unfolding set
set-Absent k v end h = refl
set-Absent k v (field j w acc) h = rw h.0 (ap (field j w) (set-Absent k v acc h.1))

Absent-snoc :
    (k j : Text) (v : Json) (acc : Fields)
    → Absent j acc
    → text_eq k j ≡ false
    → Absent j (append_fields acc (field k v end))
Absent-snoc k j v end h e = (e, tt)
Absent-snoc k j v (field i w acc) h e = (h.0, Absent-snoc k j v acc h.1 e)

pub Apart-snoc :
    (k : Text) (v : Json) (acc d : Fields)
    → Apart acc d
    → Differs k d
    → Apart (append_fields acc (field k v end)) d
Apart-snoc k v acc end h e = tt
Apart-snoc k v acc (field j w d) h e = (Absent-snoc k j v acc h.0 e.0, Apart-snoc k v acc d h.1 e.1)

pub Apart-end : (d : Fields) → Apart end d
Apart-end end = tt
Apart-end (field k v d) = (tt, Apart-end d)

pub append_fields_assoc :
    (acc : Fields) (k : Text) (v : Json) (d : Fields)
    → append_fields (append_fields acc (field k v end)) d ≡ append_fields acc (field k v d)
append_fields_assoc end k v d = refl
append_fields_assoc (field j w acc) k v d = ap (field j w) (append_fields_assoc acc k v d)

pub append_items_assoc :
    (acc : Items) (v : Json) (vs : Items)
    → append_items (append_items acc (cons v nil)) vs ≡ append_items acc (cons v vs)
append_items_assoc nil v vs = refl
append_items_assoc (cons u acc) v vs = ap (cons u) (append_items_assoc acc v vs)

pub append_items-nil : (acc : Items) → append_items acc nil ≡ acc
append_items-nil nil = refl
append_items-nil (cons u acc) = ap (cons u) (append_items-nil acc)

pub append_fields-end : (acc : Fields) → append_fields acc end ≡ acc
append_fields-end end = refl
append_fields-end (field k v acc) = ap (field k v) (append_fields-end acc)
