-- ===== src/Proxy/Pages/Json.antt =====
-- A reader of JSON objects whose members are strings, after RFC 8259, for the pages of
-- internal/proxy/server.go. It refuses the escapes other than those of `"` and `\`.
use workspace_websocket_prox.Base.{
  ℕ, zero, suc, Bool, true, false, Option, none, some, List, [], ◌∷◌, if◌then◌else◌, ◌==◌, ◌||◌,
  ltb,
}
use workspace_websocket_prox.Base.Text.{Text}

abbrev push : ℕ → Option (Text × Text) → Option (Text × Text)
push c none = none
push c (some (s, rest)) = some (c ∷ s, rest)

-- The characters of a string up to its closing quote, and what follows; `escaped` after a `\`.
unfoldable pub read_chars : (escaped : Bool) → Text → Option (Text × Text)
read_chars escaped [] = none
read_chars true (c ∷ cs) =
    let rest = read_chars false cs in if c == 34 || c == 92 then push c rest else none
read_chars false (c ∷ cs) =
    let rest = read_chars (c == 92) cs in
    if c == 34
    then some ([], cs)
    else if c == 92
    then rest
    else if ltb c 32
    then none
    else push c rest

unfoldable pub read_string : Text → Option (Text × Text)
unfolding read_chars
read_string [] = none
read_string (c ∷ cs) = if c == 34 then read_chars false cs else none

-- A value behind its colon.
abbrev pub read_value : Text → Option (Text × Text) → Option ((Text × Text) × Text)
read_value k none = none
read_value k (some (v, rest)) = some ((k, v), rest)

abbrev pub read_colon : Text → Text → Option ((Text × Text) × Text)
read_colon k [] = none
read_colon k (c ∷ cs) = if c == b':' then read_value k (read_string cs) else none

unfoldable pub read_member : Text → Option ((Text × Text) × Text)
unfolding read_string
read_member s = elim (read_string s) [ none ↦ none | some (k, rest) ↦ read_colon k rest ]

abbrev Members : Type 0
Members = Option (List (Text × Text))

-- Behind a member: the next one, or the end of the object and of the text.
abbrev pub read_more : (Text → Members) → (Text × Text) → Text → Members
read_more next m [] = none
read_more next m (c ∷ []) = if c == b'}' then some (m ∷ []) else none
read_more next m (c ∷ cs) =
    if c == b',' then elim (next cs) [ none ↦ none | some ms ↦ some (m ∷ ms) ] else none

-- At most `fuel` members.
unfoldable pub read_members : (fuel : ℕ) → Text → Members
unfolding read_member
read_members zero s = none
read_members (suc fuel) s = elim (read_member s) [
  | none ↦ none
  | some (m, rest) ↦ read_more (read_members fuel) m rest
]

unfoldable pub read_object : (fuel : ℕ) → Text → Members
unfolding read_members
read_object fuel [] = none
read_object fuel (c ∷ cs) = if c == b'{' then read_members fuel cs else none
