-- ===== src/Client/Headers.antt =====
-- The headers that `Mq9Client.send` puts on a message.
pub mod Decode
use mathlib.Core.Option
use mq.Base.{Text, codes, ℤ, Option, none, some, List, [], ◌∷◌, ◌++◌}
use mq.Base.Decimal.{str_int}
use mq.Py.Dict.{Headers, insert}
use mq.Client.Types.{Priority, normal, urgent, critical, value}

-- The keyword arguments of `send`.
pub record Options : Type 0 where
  pub priority : Priority
  pub key : Option Text
  pub delay : Option ℤ
  pub ttl : Option ℤ
  pub tags : Option (List Text)

abbrev pub default_options : Options
default_options = record { priority = normal; key = none; delay = none; ttl = none; tags = none }

-- `",".join(tags)`
unfoldable pub join : List Text → Text
join [] = []
join (t ∷ []) = t
join (t ∷ u ∷ ts) = t ++ b',' ∷ join (u ∷ ts)

-- `if v is not None: headers[k] = v`
unfoldable pub set_header : Text → Option Text → Headers → Headers
set_header k none headers = headers
set_header k (some v) headers = insert k v headers

-- `priority != Priority.NORMAL` guards the header.
abbrev pub priority_value : Priority → Option Text
priority_value normal = none
priority_value p = some (value p)

-- `if tags`: neither `None` nor an empty list
abbrev pub tags_value : Option (List Text) → Option Text
tags_value none = none
tags_value (some []) = none
tags_value (some (t ∷ ts)) = some (join (t ∷ ts))

unfoldable pub headers_of : Options → Headers
headers_of o = set_header (codes "mq9-tags") (tags_value o.tags) (
    set_header (codes "mq9-ttl") (Option.map str_int o.ttl) (
      set_header (codes "mq9-delay") (Option.map str_int o.delay) (
        set_header (codes "mq9-key") o.key
          (set_header (codes "mq9-priority") (priority_value o.priority) []))))
