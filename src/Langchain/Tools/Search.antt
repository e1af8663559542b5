-- ===== src/Langchain/Tools/Search.antt =====
-- How the discovery tool searches.
use mq.Base.{Text, ltb, Option, none, some, List, [], ◌∷◌, length, if◌then◌else◌}
use mq.Py.Text.Split.{phrase}

-- The `text` and `semantic` arguments for a query of these words: none lists all agents, up to
-- three words are a keyword search, and more are a sentence.
abbrev pub search_of : List Text → Option Text × Option Text
search_of [] = (none, none)
search_of (w ∷ words) =
    if ltb 3 (length (w ∷ words))
    then (none, some (phrase (w ∷ words)))
    else (some (phrase (w ∷ words)), none)
