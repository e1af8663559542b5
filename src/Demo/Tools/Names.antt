-- ===== src/Demo/Tools/Names.antt =====
-- `tools_by_name` of demo/python/langchain_demo.py: the tools of a toolkit by their names.
use mq.Base.{
  Text, text_eq, text_eq_iff, Bool-cases, inl, inr, false, Option, none, some, List, [], ◌∷◌, All,
  ◌≡◌, ◌≢◌, refl, if◌then◌else◌,
}
use mq.Py.Exceptions.{Result, ok, raise, key_error, or_raise}
use mq.Langchain.Toolkit.{
  ToolClass, create_mailbox, send_message, fetch_messages, ack_messages, query_messages,
  delete_message, agent_register, agent_discover, Tool, tool, get_tools,
}
use mq.Langchain.Attributes.{attributes}

abbrev pub name_of : Tool → Text
name_of t = (attributes t.tool_class).name

-- `{t.name: t for t in tools}.get(name)`: of two tools with one name the dict keeps the later.
unfoldable pub tools_by_name : List Tool → Text → Option Tool
tools_by_name [] name = none
tools_by_name (t ∷ ts) name =
    let later = tools_by_name ts name in
    elim later [ some u ↦ some u | none ↦ if text_eq (name_of t) name then some t else none ]

-- `tools_by_name[name]`, for the tools of `Mq9Toolkit(server)`
unfoldable pub tool_named : Text → Text → Result Tool
tool_named server name = or_raise (tools_by_name (get_tools server) name) (key_error name)

by_name-none :
    (name : Text) (ts : List Tool)
    → All (λ t. text_eq (name_of t) name ≡ false) ts
    → tools_by_name ts name ≡ none
unfolding tools_by_name
by_name-none name [] h = refl
by_name-none name (t ∷ ts) h = rw (by_name-none name ts h.1, h.0) refl

differ : (s t : Text) → s ≢ t → text_eq s t ≡ false
differ s t ne = elim (Bool-cases (text_eq s t)) [
  | inl e ↦ absurd (ne ((text_eq_iff s t).0 e))
  | inr e ↦ e
]

found : (server : Text) (c : ToolClass) → tool_named server (attributes c).name ≡ ok (tool server c)
unfolding tool_named tools_by_name get_tools text_eq
found server create_mailbox = refl
found server send_message = refl
found server fetch_messages = refl
found server ack_messages = refl
found server query_messages = refl
found server delete_message = refl
found server agent_register = refl
found server agent_discover = refl

missing :
    (server name : Text)
    → ((c : ToolClass) → (attributes c).name ≢ name)
    → tool_named server name ≡ raise (key_error name)
unfolding tool_named get_tools
missing server name h = rw (by_name-none name (get_tools server) all_differ) refl
  where
    one : (c : ToolClass) → text_eq (attributes c).name name ≡ false
    one c = differ (attributes c).name name (h c)

    all_differ : All (λ t. text_eq (name_of t) name ≡ false) (get_tools server)
    all_differ = (
      one create_mailbox,
      (
        one send_message,
        (
          one fetch_messages,
          (
            one ack_messages,
            (
              one query_messages,
              (one delete_message, (one agent_register, (one agent_discover, tt))),
            ),
          ),
        ),
      ),
    )

-- Every tool class is found under its name among the tools of a toolkit, with the toolkit's server
-- in place of the class's default, so that no two of them share a name; and a name that is none of
-- theirs is a KeyError.
tools_are_found :
    (server unknown : Text)
    → ((c : ToolClass) → (attributes c).name ≢ unknown)
    → ((c : ToolClass) → tool_named server (attributes c).name ≡ ok (tool server c))
      × (tool_named server unknown ≡ raise (key_error unknown))
tools_are_found server unknown h = (found server, missing server unknown h)
