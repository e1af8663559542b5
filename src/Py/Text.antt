-- ===== src/Py/Text.antt =====
-- The `str` methods that the tools use: `split` without a separator, and `join`.
pub mod Split
use mq.Base.{
  ℕ, ◌≤◌, Text, Bool, true, false, leb, ◌==◌, ◌&&◌, ◌||◌, Option, List, [], ◌∷◌, ◌++◌, codes, ◌≡◌,
  refl, is_empty, if◌then◌else◌,
}

-- `c.isspace()`
unfoldable pub is_space : ℕ → Bool
is_space c =
    (leb 9 c && leb c 13)
    || (leb 28 c && leb c 32)
    || c == 0x85
    || c == 0xA0
    || c == 0x1680
    || (leb 0x2000 c && leb c 0x200A)
    || c == 0x2028
    || c == 0x2029
    || c == 0x202F
    || c == 0x205F
    || c == 0x3000

-- A word that has ended, in front of the words after it.
abbrev pub flush : Text → List Text → List Text
flush [] words = words
flush (c ∷ s) words = (c ∷ s) ∷ words

unfoldable pub split_from : Text → Text → List Text
unfolding is_space
split_from word [] = flush word []
split_from word (c ∷ s) =
    let rest = split_from (if is_space c then [] else word ++ c ∷ []) s in
    if is_space c then flush word rest else rest

-- `s.split()`
unfoldable pub split : Text → List Text
unfolding split_from
split s = split_from [] s

-- `sep.join(parts)`
unfoldable pub join : Text → List Text → Text
join sep [] = []
join sep (part ∷ []) = part
join sep (part ∷ (next ∷ parts)) = part ++ (sep ++ join sep (next ∷ parts))

split_example : split (codes "  find an\tagent ") ≡ codes "find" ∷ codes "an" ∷ codes "agent" ∷ []
unfolding split
split_example = refl
