-- ===== src/Base/Text.antt =====
-- Go strings as lists of bytes, with the functions of packages strings and strconv that the program
-- calls.
pub mod Laws
pub mod Parse
pub mod RoundTrip
use Prim.Native.Char.{code}
use Prim.Native.String.{String}
use workspace_websocket_prox.Base.Tests.{ltb, ◌==◌, if◌then◌else◌}
use Prim.Native.Nat.{ℕ, zero, suc, ◌+◌, ◌/◌, ◌%◌}
use mathlib.Core.Path.{◌≡◌, refl, ap₂}
use mathlib.Core.Bool.{Bool, true, false, ◌||◌}
use mathlib.Core.Option.{Option, none, some}
use mathlib.Core.List.{List, [], ◌∷◌, ◌++◌}
use workspace_websocket_prox.Base.Int.{ℤ, pos, negsuc}
use native.Mathlib.Decide.{ℕ_discrete}

abbrev pub Text : Type 0
Text = List ℕ

-- The bytes of an ASCII literal.
abbrev pub codes : String → Text
codes String.[] = []
codes (String.◌∷◌ c s) = code c ∷ codes s

-- `==` on strings, as a decision.
unfoldable pub text_eq : (a b : Text) → Dec (a ≡ b)
unfolding ℕ_discrete
text_eq [] [] = yes refl
text_eq [] (b ∷ bs) = no (λ e. cc)
text_eq (a ∷ as') [] = no (λ e. cc)
text_eq (a ∷ as') (b ∷ bs) = elim (ℕ_discrete a b) [
  | yes p ↦ elim (text_eq as' bs) [ yes q ↦ yes (ap₂ ◌∷◌ p q) | no n ↦ no (λ e. n (cc)) ]
  | no n ↦ no (λ e. n (cc))
]

-- `strings.Contains` of one byte.
unfoldable pub has_byte : ℕ → Text → Bool
has_byte c [] = false
has_byte c (x ∷ xs) = x == c || has_byte c xs

-- What stands before and behind the last `c`, as `strings.LastIndex` finds it.
unfoldable pub cut_last : ℕ → Text → Option (Text × Text)
cut_last c [] = none
cut_last c (x ∷ xs) = elim (cut_last c xs) [
  | some (a, b) ↦ some (x ∷ a, b)
  | none ↦ if x == c then some ([], xs) else none
]

-- The same for the first `c`: `strings.Cut`.
unfoldable pub cut : ℕ → Text → Option (Text × Text)
cut c [] = none
cut c (x ∷ xs) = elim (cut c xs) [
  | some (a, b) ↦ if x == c then some ([], xs) else some (x ∷ a, b)
  | none ↦ if x == c then some ([], xs) else none
]

-- What is left of `s` behind `prefix`, where it has that prefix: `strings.HasPrefix` and
-- `strings.TrimPrefix` in one.
unfoldable pub strip_prefix : Text → Text → Option Text
strip_prefix [] s = some s
strip_prefix (p ∷ ps) [] = none
strip_prefix (p ∷ ps) (x ∷ xs) = if p == x then strip_prefix ps xs else none

itoa_fuel : ℕ → ℕ → Text
itoa_fuel zero n = []
itoa_fuel (suc fuel) n =
    let rest = itoa_fuel fuel (n / 10) in
    if ltb n 10 then (48 + n) ∷ [] else rest ++ (48 + n % 10) ∷ []

-- `strconv.Itoa` of a number that is not negative; a number has fewer digits than its value and 1.
unfoldable pub itoa : ℕ → Text
unfolding itoa_fuel
itoa n = itoa_fuel (suc n) n

-- `%d` of an `int`
abbrev pub decimal_text : ℤ → Text
decimal_text (pos n) = itoa n
decimal_text (negsuc n) = b'-' ∷ itoa (n + 1)

-- `net.JoinHostPort`
unfoldable pub join_host_port : Text → Text → Text
join_host_port host port =
    if has_byte b':' host then (b'[' ∷ host) ++ (b']' ∷ b':' ∷ port) else host ++ (b':' ∷ port)
