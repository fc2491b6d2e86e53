-- ===== src/Base/Text/Parse.antt =====
-- Go's strconv.Atoi, strconv.ParseBool and net.SplitHostPort; a failure is `none`.
use Prim.Native.Nat.{ℕ, ◌+◌, ◌-◌, ◌*◌, ◌^◌}
use mathlib.Core.Bool.{Bool, true, false, ◌||◌, ◌&&◌}
use mathlib.Core.Option.{Option, none, some}
use mathlib.Core.Logic.{ite}
use mathlib.Core.List.{List, [], ◌∷◌}
use workspace_websocket_prox.Base.Tests.{ltb, leb, ◌==◌, if◌then◌else◌}
use workspace_websocket_prox.Base.Int.{ℤ, pos, sub_ℕ}
use workspace_websocket_prox.Base.Text.{Text, codes, text_eq, has_byte, cut, cut_last}

-- The value of a run of digits, on top of what was read.
unfoldable pub digits_value : ℕ → Text → Option ℕ
digits_value acc [] = some acc
digits_value acc (c ∷ cs) =
    let rest = digits_value (acc * 10 + (c - 48)) cs in if leb 48 c && leb c 57 then rest else none

abbrev natural : Text → Option ℕ
natural [] = none
natural (c ∷ cs) = digits_value 0 (c ∷ cs)

-- An `int` has 64 bits.
abbrev as_int : Option ℕ → Option ℤ
as_int none = none
as_int (some n) = if ltb n (2 ^ 63) then some (pos n) else none

abbrev as_negative : Option ℕ → Option ℤ
as_negative none = none
as_negative (some n) = if leb n (2 ^ 63) then some (sub_ℕ 0 n) else none

unfoldable pub atoi : Text → Option ℤ
unfolding digits_value
atoi [] = none
atoi (c ∷ cs) =
    if c == b'-'
    then as_negative (natural cs)
    else if c == b'+'
    then as_int (natural cs)
    else as_int (natural (c ∷ cs))

one_of : Text → List Text → Bool
one_of s [] = false
one_of s (t ∷ ts) = ite (text_eq s t) true (one_of s ts)

unfoldable pub parse_bool : Text → Option Bool
unfolding one_of text_eq
parse_bool s =
    if one_of s
      (codes "1" ∷ codes "t" ∷ codes "T" ∷ codes "true" ∷ codes "TRUE" ∷ codes "True" ∷ [])
    then some true
    else if one_of s
        (codes "0" ∷ codes "f" ∷ codes "F" ∷ codes "false" ∷ codes "FALSE" ∷ codes "False" ∷ [])
    then some false
    else none

abbrev has_bracket : Text → Bool
has_bracket s = has_byte b'[' s || has_byte b']' s

split_plain : Text → Text → Option (Text × Text)
split_plain host port =
    if has_byte b':' host || (has_bracket host || has_bracket port) then none else some (host, port)

split_closed : Option (Text × Text) → Text → Option (Text × Text)
split_closed none port = none
split_closed (some (host, [])) port =
    if has_byte b'[' host || has_bracket port then none else some (host, port)
split_closed (some (host, _ ∷ _)) port = none

pub split_before : Text → Text → Option (Text × Text)
split_before [] port = split_plain [] port
split_before (c ∷ cs) port =
    if c == b'[' then split_closed (cut b']' cs) port else split_plain (c ∷ cs) port

-- The port stands behind the last colon; a host in brackets ends right before it.
abbrev pub split_parts : Option (Text × Text) → Option (Text × Text)
split_parts none = none
split_parts (some (before, port)) = split_before before port

unfoldable pub split_host_port : Text → Option (Text × Text)
unfolding split_before split_plain split_closed
split_host_port s = split_parts (cut_last b':' s)
