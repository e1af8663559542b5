-- ===== src/Py/Json.antt =====
-- The values of the `json` module. An object keeps its keys in insertion order, as a `dict` does.
-- Floating-point numbers are left out: no field of the protocol has one.
use mq.Base.{
  Text, text_eq, text_eq_iff, ℤ, is_zero, Bool, true, false, not, Option, none, some, List, [], ◌∷◌,
  is_empty, ◌≡◌, refl, arith, if◌then◌else◌,
}

mutual
  pub data Json : Type 0 where
    null : Json
    bool : Bool → Json
    int : ℤ → Json
    str : Text → Json
    arr : Items → Json
    obj : Fields → Json

  pub data Items : Type 0 where
    nil : Items
    cons : Json → Items → Items

  pub data Fields : Type 0 where
    end : Fields
    field : Text → Json → Fields → Fields

-- `d.get(k)`
unfoldable pub get : Text → Fields → Option Json
get k end = none
get k (field j v d) = if text_eq j k then some v else get k d

-- `d[k] = v`
unfoldable pub set : Text → Json → Fields → Fields
set k v end = field k v end
set k v (field j w d) = if text_eq j k then field j v d else field j w (set k v d)

pub get-set :
    (k j : Text) (v : Json) (d : Fields)
    → get j (set k v d) ≡ (if text_eq k j then some v else get j d)
unfolding get set
get-set k j v end = refl
get-set k j v (field i w d) =
    ground (arith, text_eq_iff k j, text_eq_iff i k, text_eq_iff i j, get-set k j v d)

-- `bool(v)`
unfoldable pub truthy : Json → Bool
truthy null = false
truthy (bool b) = b
truthy (int i) = not (is_zero i)
truthy (str s) = not (is_empty s)
truthy (arr nil) = false
truthy (arr (cons v vs)) = true
truthy (obj end) = false
truthy (obj (field k v d)) = true

abbrev pub to_list : Items → List Json
to_list nil = []
to_list (cons v vs) = v ∷ to_list vs

abbrev pub of_list : List Json → Items
of_list [] = nil
of_list (v ∷ vs) = cons v (of_list vs)
