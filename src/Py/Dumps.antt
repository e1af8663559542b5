-- ===== src/Py/Dumps.antt =====
-- `json.dumps(v)` with its default options: ASCII only, ", " and ": " as separators.
pub mod Ascii
use mq.Base.{
  ℕ, ◌+◌, ◌-◌, ◌/◌, ◌%◌, Text, codes, ltb, leb, ◌==◌, ◌&&◌, true, false, ℤ, pos, [], ◌∷◌, ◌++◌, ◌≡◌,
  refl, if◌then◌else◌,
}
use mq.Base.Decimal.{decimal, str_int}
use mq.Py.Json.{Json, null, bool, int, str, arr, obj, nil, cons, end, field, Items, Fields}

unfoldable pub hex_digit : ℕ → ℕ
hex_digit d = if ltb d 10 then d + b'0' else d - 10 + b'a'

-- `\uXXXX`
unfoldable pub escape_unit : ℕ → Text
escape_unit u =
    b'\\'
    ∷ b'u'
    ∷ hex_digit (u / 4096 % 16)
    ∷ hex_digit (u / 256 % 16)
    ∷ hex_digit (u / 16 % 16)
    ∷ hex_digit (u % 16)
    ∷ []

unfoldable pub dump_char : ℕ → Text
dump_char c =
    if c == 34
    then 92 ∷ 34 ∷ []
    else if c == 92
    then 92 ∷ 92 ∷ []
    else if c == 10
    then 92 ∷ b'n' ∷ []
    else if c == 13
    then 92 ∷ b'r' ∷ []
    else if c == 9
    then 92 ∷ b't' ∷ []
    else if c == 12
    then 92 ∷ b'f' ∷ []
    else if c == 8
    then 92 ∷ b'b' ∷ []
    else if leb 32 c && leb c 126
    then c ∷ []
    else if ltb c 0x10000
    then escape_unit c
    else escape_unit (0xD800 + (c - 0x10000) / 1024) ++ escape_unit (0xDC00 + (c - 0x10000) % 1024)

unfoldable pub dump_chars : Text → Text
dump_chars [] = []
dump_chars (c ∷ s) = dump_char c ++ dump_chars s

unfoldable pub dump_str : Text → Text
dump_str s = 34 ∷ (dump_chars s ++ 34 ∷ [])

unfoldable mutual
  pub dumps : Json → Text
  dumps null = codes "null"
  dumps (bool true) = codes "true"
  dumps (bool false) = codes "false"
  dumps (int i) = str_int i
  dumps (str s) = dump_str s
  dumps (arr nil) = codes "[]"
  dumps (arr (cons v vs)) = b'[' ∷ (dumps v ++ dump_items vs)
  dumps (obj end) = codes "{}"
  dumps (obj (field k v d)) = b'{' ∷ (dump_str k ++ (codes ": " ++ (dumps v ++ dump_fields d)))

  -- The items after the first, and the bracket.
  pub dump_items : Items → Text
  dump_items nil = b']' ∷ []
  dump_items (cons v vs) = codes ", " ++ (dumps v ++ dump_items vs)

  pub dump_fields : Fields → Text
  dump_fields end = b'}' ∷ []
  dump_fields (field k v d) =
      codes ", " ++ (dump_str k ++ (codes ": " ++ (dumps v ++ dump_fields d)))

dumps_example :
    dumps
      (obj (field (codes "ttl") (int (pos 0)) (field (codes "name") (str (0xE9 ∷ 10 ∷ [])) end)))
    ≡ codes "{\"ttl\": 0, \"name\": \"\\u00e9\\n\"}"
unfolding dumps dump_str dump_chars dump_char escape_unit hex_digit str_int decimal
dumps_example = refl
