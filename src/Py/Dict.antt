-- ===== src/Py/Dict.antt =====
-- A `dict` from `str` to `str`, in insertion order: the headers of a message.
use mq.Base.{
  Text, text_eq, text_eq_iff, Option, none, some, List, [], ◌∷◌, ◌≡◌, refl, arith, if◌then◌else◌,
}

abbrev pub Headers : Type 0
Headers = List (Text × Text)

-- `d.get(k)`
unfoldable pub lookup : Text → Headers → Option Text
lookup k [] = none
lookup k ((j, v) ∷ d) = if text_eq j k then some v else lookup k d

-- `d[k] = v`
unfoldable pub insert : Text → Text → Headers → Headers
insert k v [] = (k, v) ∷ []
insert k v ((j, w) ∷ d) = if text_eq j k then (j, v) ∷ d else (j, w) ∷ insert k v d

pub lookup-insert :
    (k j : Text) (v : Text) (d : Headers)
    → lookup j (insert k v d) ≡ (if text_eq k j then some v else lookup j d)
unfolding lookup insert
lookup-insert k j v [] = refl
lookup-insert k j v ((i, w) ∷ d) =
    ground (arith, text_eq_iff k j, text_eq_iff i k, text_eq_iff i j, lookup-insert k j v d)
