-- ===== src/Base/Text/Laws.antt =====
-- Decimal numerals and host:port texts are read back uniquely.
use workspace_websocket_prox.Base.Tests.{ltb, if◌then◌else◌, Bool-cases}
use Prim.Native.Nat.{ℕ, zero, suc, ◌+◌, ◌-◌, ◌*◌, ◌/◌, ◌%◌, ◌<◌}
use mathlib.Core.Path.{◌≡◌, refl, sym, ap, ◌∙◌}
use mathlib.Core.Logic.{inl, inr}
use mathlib.Core.Bool.{false, ◌||◌}
use mathlib.Core.Option.{Option, none, some}
use mathlib.Core.List.{[], ◌∷◌, ◌++◌, append_assoc}
use native.Mathlib.Omega.{arith}
use workspace_websocket_prox.Base.Text.{Text, has_byte, cut_last, itoa_fuel, itoa, join_host_port}

pub has_byte-append :
    (c : ℕ) (xs ys : Text) → has_byte c (xs ++ ys) ≡ (has_byte c xs || has_byte c ys)
unfolding has_byte
has_byte-append c [] ys = refl
has_byte-append c (x ∷ xs) ys = ground (arith, has_byte-append c xs ys)

cut_last-none : (c : ℕ) (xs : Text) → has_byte c xs ≡ false → cut_last c xs ≡ none
unfolding has_byte cut_last
cut_last-none c [] h = refl
cut_last-none c (x ∷ xs) h = ground (arith, cut_last-none c xs)

pub cut_last-append :
    (c : ℕ) (h p : Text) → has_byte c p ≡ false → cut_last c (h ++ c ∷ p) ≡ some (h, p)
unfolding cut_last
cut_last-append c [] p e = ground (arith, cut_last-none c p e)
cut_last-append c (x ∷ h) p e = rw (cut_last-append c h p e, cut_last)

-- The number that a decimal numeral stands for.
decimal : ℕ → Text → ℕ
decimal acc [] = acc
decimal acc (c ∷ cs) = decimal (acc * 10 + (c - 48)) cs

decimal-append :
    (acc : ℕ) (xs : Text) (c : ℕ) → decimal acc (xs ++ c ∷ []) ≡ decimal acc xs * 10 + (c - 48)
unfolding decimal
decimal-append acc [] c = refl
decimal-append acc (x ∷ xs) c = decimal-append (acc * 10 + (x - 48)) xs c

decimal-itoa_fuel : (f n : ℕ) → n < f → decimal 0 (itoa_fuel f n) ≡ n
unfolding itoa_fuel
decimal-itoa_fuel zero n h = absurd (omega arith)
decimal-itoa_fuel (suc f) n h = elim (Bool-cases (ltb n 10)) [
  | inl e ↦ rw e (unfold decimal in omega arith)
  | inr e ↦ rw e (
      ground (
        arith,
        decimal-append 0 (itoa_fuel f (n / 10)) (48 + n % 10),
        decimal-itoa_fuel f (n / 10),
      ))
]

pub itoa-injective : (m n : ℕ) → itoa m ≡ itoa n → m ≡ n
unfolding itoa
itoa-injective m n e = omega (
  arith,
  decimal-itoa_fuel (suc m) m (omega arith),
  decimal-itoa_fuel (suc n) n (omega arith),
  ap (decimal 0) e,
)

no_colon_fuel : (f n : ℕ) → has_byte b':' (itoa_fuel f n) ≡ false
unfolding itoa_fuel has_byte
no_colon_fuel zero n = refl
no_colon_fuel (suc f) n = ground (
  arith,
  has_byte-append b':' (itoa_fuel f (n / 10)) ((48 + n % 10) ∷ []),
  no_colon_fuel f (n / 10),
)

pub has_byte-itoa : (n : ℕ) → has_byte b':' (itoa n) ≡ false
unfolding itoa
has_byte-itoa n = no_colon_fuel (suc n) n

append-injective_last : (xs ys : Text) (c : ℕ) → xs ++ c ∷ [] ≡ ys ++ c ∷ [] → xs ≡ ys
append-injective_last [] [] c e = refl
append-injective_last [] (y ∷ []) c e = cc
append-injective_last [] (y ∷ z ∷ ys) c e = cc
append-injective_last (x ∷ []) [] c e = cc
append-injective_last (x ∷ z ∷ xs) [] c e = cc
append-injective_last (x ∷ xs) (y ∷ ys) c e = cc (append-injective_last xs ys c (cc))

-- The host as it stands before the last colon.
unfoldable pub bracketed : Text → Text
bracketed host = if has_byte b':' host then b'[' ∷ (host ++ b']' ∷ []) else host

pub join-bracketed : (host port : Text) → join_host_port host port ≡ bracketed host ++ b':' ∷ port
unfolding join_host_port bracketed
join-bracketed host port = elim (Bool-cases (has_byte b':' host)) [
  | inl e ↦ rw e (ap (◌∷◌ b'[') (sym (append_assoc host (b']' ∷ []) (b':' ∷ port))))
  | inr e ↦ rw e
]

has_byte-bracketed : (host : Text) → has_byte b':' (bracketed host) ≡ has_byte b':' host
unfolding bracketed has_byte
has_byte-bracketed host = ground (arith, has_byte-append b':' host (b']' ∷ []))

bracketed-injective : (g h : Text) → bracketed g ≡ bracketed h → g ≡ h
unfolding bracketed
bracketed-injective g h e = ground (
  arith,
  sym (has_byte-bracketed g) ∙ ap (has_byte b':') e ∙ has_byte-bracketed h,
  append-injective_last g h b']',
)

-- Two keys are equal only for the same host and port text.
pub join_host_port-injective :
    (g h p q : Text)
    → has_byte b':' p ≡ false
    → has_byte b':' q ≡ false
    → join_host_port g p ≡ join_host_port h q
    → (g ≡ h) × (p ≡ q)
join_host_port-injective g h p q np nq e = (bracketed-injective g h (cc both), cc both)
  where
    both : ◌≡◌ {A = Option (Text × Text)} (some (bracketed g, p)) (some (bracketed h, q))
    both =
        sym (cut_last-append b':' (bracketed g) p np)
        ∙ ap (cut_last b':') (sym (join-bracketed g p) ∙ e ∙ join-bracketed h q)
        ∙ cut_last-append b':' (bracketed h) q nq
