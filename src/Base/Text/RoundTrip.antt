-- ===== src/Base/Text/RoundTrip.antt =====
-- What is printed is read back: numerals, and addresses of a host and a port.
use Prim.Native.Nat.{ℕ, zero, suc, ◌+◌, ◌-◌, ◌*◌, ◌/◌, ◌%◌, ◌<◌, ◌^◌}
use mathlib.Core.Path.{◌≡◌, refl, ap, ◌∙◌}
use mathlib.Core.Logic.{◌≢◌, inl, inr}
use mathlib.Core.Bool.{false}
use mathlib.Core.Option.{Option, none, some}
use mathlib.Core.List.{[], ◌∷◌, ◌++◌}
use native.Mathlib.Omega.{arith}
use workspace_websocket_prox.Base.Tests.{ltb, if◌then◌else◌, Bool-cases}
use workspace_websocket_prox.Base.Int.{pos}
use workspace_websocket_prox.Base.Text.{Text, has_byte, cut, itoa_fuel, itoa, join_host_port}
use workspace_websocket_prox.Base.Text.Laws.{
  has_byte-append, cut_last-append, bracketed, join-bracketed,
}
use workspace_websocket_prox.Base.Text.Parse.{digits_value, atoi, split_host_port, split_parts}

abbrev push_digit : ℕ → Option ℕ → Option ℕ
push_digit d none = none
push_digit d (some v) = some (v * 10 + d)

digits_value-append :
    (acc d : ℕ) (xs : Text)
    → d < 10
    → digits_value acc (xs ++ (48 + d) ∷ []) ≡ push_digit d (digits_value acc xs)
unfolding digits_value
digits_value-append acc d [] h = ground arith
digits_value-append acc d (x ∷ xs) h =
    ground (arith, digits_value-append (acc * 10 + (x - 48)) d xs)

digits_value-one : (d : ℕ) → d < 10 → digits_value 0 ((48 + d) ∷ []) ≡ some d
unfolding digits_value
digits_value-one d h = ground arith

digits_value-itoa_fuel : (f n : ℕ) → n < f → digits_value 0 (itoa_fuel f n) ≡ some n
unfolding itoa_fuel
digits_value-itoa_fuel zero n h = absurd (omega arith)
digits_value-itoa_fuel (suc f) n h = elim (Bool-cases (ltb n 10)) [
  | inl e ↦ rw e (ground (arith, digits_value-one n))
  | inr e ↦ rw e (
      ground (
        arith,
        digits_value-append 0 (n % 10) (itoa_fuel f (n / 10)),
        digits_value-itoa_fuel f (n / 10),
      ))
]

append-ne-nil : (xs : Text) (c : ℕ) → xs ++ c ∷ [] ≢ []
append-ne-nil [] c e = cc
append-ne-nil (x ∷ xs) c e = cc

itoa_fuel-ne-nil : (f n : ℕ) → itoa_fuel (suc f) n ≢ []
unfolding itoa_fuel
itoa_fuel-ne-nil f n = elim (Bool-cases (ltb n 10)) [
  | inl e ↦ rw e (λ h. cc)
  | inr e ↦ rw e (append-ne-nil (itoa_fuel f (n / 10)) (48 + n % 10))
]

atoi-digits :
    (s : Text) (n : ℕ)
    → s ≢ []
    → digits_value 0 s ≡ some n
    → atoi s ≡ (if ltb n (2 ^ 63) then some (pos n) else none)
unfolding atoi digits_value
atoi-digits [] n e d = absurd (e refl)
atoi-digits (c ∷ cs) n e d = ground arith

-- A numeral that Itoa prints is read back by Atoi, if it fits into an int.
pub atoi-itoa : (n : ℕ) → atoi (itoa n) ≡ (if ltb n (2 ^ 63) then some (pos n) else none)
unfolding itoa
atoi-itoa n =
    atoi-digits (itoa_fuel (suc n) n) n (itoa_fuel-ne-nil n n)
      (digits_value-itoa_fuel (suc n) n (omega arith))

-- What a minus sign leads is no positive number.
pub atoi-minus : (s : Text) (n : ℕ) → atoi (b'-' ∷ s) ≢ some (pos (suc n))
unfolding atoi
atoi-minus s n h = ground arith

-- No byte of an address is a bracket.
abbrev pub IsPlain : Text → Type 0
IsPlain s = (has_byte b'[' s ≡ false) × (has_byte b']' s ≡ false)

itoa_fuel-IsPlain : (f n : ℕ) → IsPlain (itoa_fuel f n)
unfolding itoa_fuel has_byte
itoa_fuel-IsPlain zero n = (refl, refl)
itoa_fuel-IsPlain (suc f) n = ground (
  arith,
  has_byte-append b'[' (itoa_fuel f (n / 10)) ((48 + n % 10) ∷ []),
  has_byte-append b']' (itoa_fuel f (n / 10)) ((48 + n % 10) ∷ []),
  itoa_fuel-IsPlain f (n / 10),
)

pub itoa-IsPlain : (n : ℕ) → IsPlain (itoa n)
unfolding itoa
itoa-IsPlain n = itoa_fuel-IsPlain (suc n) n

cut-append : (c : ℕ) (xs : Text) → has_byte c xs ≡ false → cut c (xs ++ c ∷ []) ≡ some (xs, [])
unfolding has_byte cut
cut-append c [] h = ground arith
cut-append c (x ∷ xs) h = ground (arith, cut-append c xs (ground arith))

split_parts-plain :
    (host port : Text)
    → has_byte b':' host ≡ false
    → IsPlain host
    → IsPlain port
    → split_parts (some (host, port)) ≡ some (host, port)
unfolding split_host_port has_byte
split_parts-plain [] port c h p = ground arith
split_parts-plain (x ∷ xs) port c h p = ground arith

split-bracketed :
    (host port : Text)
    → IsPlain host
    → IsPlain port
    → has_byte b':' port ≡ false
    → split_host_port (bracketed host ++ b':' ∷ port) ≡ some (host, port)
unfolding split_host_port bracketed
split-bracketed host port h p c = elim (Bool-cases (has_byte b':' host)) [
  | inl e ↦
      rw (e, cut_last-append b':' (b'[' ∷ (host ++ b']' ∷ [])) port c, cut-append b']' host h.1)
        (ground arith)
  | inr e ↦
      rw e (ap split_parts (cut_last-append b':' host port c) ∙ split_parts-plain host port e h p)
]

-- SplitHostPort takes apart what JoinHostPort puts together, of a host and a port without
-- brackets, where the port has no colon.
pub split_host_port-join_host_port :
    (host port : Text)
    → IsPlain host
    → IsPlain port
    → has_byte b':' port ≡ false
    → split_host_port (join_host_port host port) ≡ some (host, port)
split_host_port-join_host_port host port h p c =
    ap split_host_port (join-bracketed host port) ∙ split-bracketed host port h p c
