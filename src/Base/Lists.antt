-- ===== src/Base/Lists.antt =====
-- Lists indexed by native numbers, and weighted counts over them.
use Prim.Native.Nat.{ℕ, zero, suc, ◌+◌, ◌≤◌}
use mathlib.Core.Path.{◌≡◌, refl, ap, subst}
use mathlib.Core.Logic.{◌⊎◌, inl, inr}
use workspace_websocket_prox.Base.Tests.{zero_or_pos}
use mathlib.Core.List.{List, [], ◌∷◌, ◌++◌, map}
use mathlib.Core.Option.{Option, none, some}
use native.Mathlib.Omega.{arith}

module _ {ℓ} {A : Type ℓ} where
  abbrev pub length : List A → ℕ
  length [] = 0
  length (x ∷ xs) = suc (length xs)

  abbrev pub get_elem? : List A → ℕ → Option A
  get_elem? [] i = none
  get_elem? (x ∷ xs) zero = some x
  get_elem? (x ∷ xs) (suc i) = get_elem? xs i

  -- A write out of bounds changes nothing.
  abbrev pub set : List A → ℕ → A → List A
  set [] i v = []
  set (x ∷ xs) zero v = v ∷ xs
  set (x ∷ xs) (suc i) v = x ∷ set xs i v

  abbrev pub replicate : ℕ → A → List A
  replicate zero a = []
  replicate (suc n) a = a ∷ replicate n a

  pub length-append : (xs ys : List A) → length (xs ++ ys) ≡ length xs + length ys
  length-append [] ys = omega arith
  length-append (x ∷ xs) ys = omega (arith, length-append xs ys)

  pub get_elem?-set_self :
      (xs : List A) (i : ℕ) {x : A} (v : A)
      → get_elem? xs i ≡ some x
      → get_elem? (set xs i v) i ≡ some v
  get_elem?-set_self [] i v h = cc
  get_elem?-set_self (x ∷ xs) zero v h = refl
  get_elem?-set_self (x ∷ xs) (suc i) v h = get_elem?-set_self xs i v h

  pub set-get_elem? : (xs : List A) (i : ℕ) {x : A} → get_elem? xs i ≡ some x → set xs i x ≡ xs
  set-get_elem? [] i h = refl
  set-get_elem? (y ∷ xs) zero h = cc
  set-get_elem? (y ∷ xs) (suc i) {x} h = ap (λ l. y ∷ l) (set-get_elem? xs i {x = x} h)

  pub set-set : (xs : List A) (i : ℕ) (v w : A) → set (set xs i v) i w ≡ set xs i w
  set-set [] i v w = refl
  set-set (x ∷ xs) zero v w = refl
  set-set (x ∷ xs) (suc i) v w = ap (λ l. x ∷ l) (set-set xs i v w)

  abbrev pub All {κ} : (A → Type κ) → List A → Type κ
  All P [] = Unit
  All P (x ∷ xs) = P x × All P xs

  pub All-set {κ} :
      (P : A → Type κ) (xs : List A) (i : ℕ) (v : A) → All P xs → P v → All P (set xs i v)
  All-set P [] i v h hv = h
  All-set P (x ∷ xs) zero v h hv = (hv, h.1)
  All-set P (x ∷ xs) (suc i) v h hv = (h.0, All-set P xs i v h.1 hv)

  pub All-get_elem? {κ} :
      (P : A → Type κ) (xs : List A) (i : ℕ) {x : A} → All P xs → get_elem? xs i ≡ some x → P x
  All-get_elem? P [] i h e = cc
  All-get_elem? P (y ∷ xs) zero h e = subst P (cc) h.0
  All-get_elem? P (y ∷ xs) (suc i) h e = All-get_elem? P xs i h.1 e

  pub All-replicate {κ} : (P : A → Type κ) (n : ℕ) {a : A} → P a → All P (replicate n a)
  All-replicate P zero h = tt
  All-replicate P (suc n) h = (h, All-replicate P n h)

  -- The sum of a weight over a list.
  pub tally : (A → ℕ) → List A → ℕ
  tally w [] = 0
  tally w (x ∷ xs) = w x + tally w xs

  -- Replacing one element shifts the sum by the difference of the two weights.
  pub tally-set :
      (w : A → ℕ) (xs : List A) (i : ℕ) (x v : A)
      → get_elem? xs i ≡ some x
      → tally w (set xs i v) + w x ≡ tally w xs + w v
  unfolding tally
  tally-set w [] i x v h = cc
  tally-set w (y ∷ ys) zero x v h = ground arith
  tally-set w (y ∷ ys) (suc i) x v h = omega (arith, tally-set w ys i x v h)

  pub tally-ge :
      (w : A → ℕ) (xs : List A) (i : ℕ) (x : A) → get_elem? xs i ≡ some x → w x ≤ tally w xs
  unfolding tally
  tally-ge w [] i x h = cc
  tally-ge w (y ∷ ys) zero x h = ground arith
  tally-ge w (y ∷ ys) (suc i) x h = omega (arith, tally-ge w ys i x h)

  pub tally-replicate : (w : A → ℕ) (n : ℕ) (a : A) → w a ≡ 0 → tally w (replicate n a) ≡ 0
  unfolding tally
  tally-replicate w zero a h = refl
  tally-replicate w (suc n) a h = omega (arith, tally-replicate w n a h)

  pub tally-All_zero : (w : A → ℕ) (xs : List A) → All (λ x. w x ≡ 0) xs → tally w xs ≡ 0
  unfolding tally
  tally-All_zero w [] h = refl
  tally-All_zero w (x ∷ xs) h = omega (arith, tally-All_zero w xs h.1)

  -- Where not all is 0, some element counts.
  pub tally-found :
      (w : A → ℕ) (xs : List A)
      → (tally w xs ≡ 0) ⊎ ((i : ℕ) × (x : A) × (get_elem? xs i ≡ some x) × (1 ≤ w x))
  unfolding tally
  tally-found w [] = inl refl
  tally-found w (x ∷ xs) = elim (zero_or_pos (w x)) [
    | inr h ↦ inr (0, x, refl, h)
    | inl h ↦ elim (tally-found w xs) [
      | inl z ↦ inl (omega (arith, h, z))
      | inr (i, y, e, g) ↦ inr (suc i, y, e, g)
    ]
  ]

  pub tally_mono : (v w : A → ℕ) (xs : List A) → ((x : A) → v x ≤ w x) → tally v xs ≤ tally w xs
  unfolding tally
  tally_mono v w [] h = omega arith
  tally_mono v w (x ∷ xs) h = omega (arith, h x, tally_mono v w xs h)

  -- Three weights that share out each element count the list together.
  pub tally-share :
      (u v w : A → ℕ) (xs : List A)
      → All (λ x. u x + v x + w x ≡ 1) xs
      → tally u xs + tally v xs + tally w xs ≡ length xs
  unfolding tally
  tally-share u v w [] h = omega arith
  tally-share u v w (x ∷ xs) h = omega (arith, h.0, tally-share u v w xs h.1)

  pub All-imp {κ μ} :
      (P : A → Type κ) (Q : A → Type μ) (xs : List A) → ((x : A) → P x → Q x) → All P xs → All Q xs
  All-imp P Q [] f h = tt
  All-imp P Q (x ∷ xs) f h = (f x h.0, All-imp P Q xs f h.1)

  pub All-append {κ} : (P : A → Type κ) (xs ys : List A) → All P xs → All P ys → All P (xs ++ ys)
  All-append P [] ys h k = k
  All-append P (x ∷ xs) ys h k = (h.0, All-append P xs ys h.1 k)

  pub tally-append : (w : A → ℕ) (xs ys : List A) → tally w (xs ++ ys) ≡ tally w xs + tally w ys
  unfolding tally
  tally-append w [] ys = omega arith
  tally-append w (x ∷ xs) ys = omega (arith, tally-append w xs ys)

  pub length-set : (xs : List A) (i : ℕ) (v : A) → length (set xs i v) ≡ length xs
  length-set [] i v = refl
  length-set (x ∷ xs) zero v = refl
  length-set (x ∷ xs) (suc i) v = ap suc (length-set xs i v)

  pub length-replicate : (n : ℕ) (a : A) → length (replicate n a) ≡ n
  length-replicate zero a = refl
  length-replicate (suc n) a = ap suc (length-replicate n a)

-- The first `n` elements, and the others.
module _ {ℓ} {A : Type ℓ} where
  abbrev pub take : ℕ → List A → List A
  take zero xs = []
  take (suc n) [] = []
  take (suc n) (x ∷ xs) = x ∷ take n xs

  abbrev pub drop : ℕ → List A → List A
  drop zero xs = xs
  drop (suc n) [] = []
  drop (suc n) (x ∷ xs) = drop n xs

  pub take-append-drop : (n : ℕ) (xs : List A) → take n xs ++ drop n xs ≡ xs
  take-append-drop zero xs = refl
  take-append-drop (suc n) [] = refl
  take-append-drop (suc n) (x ∷ xs) = ap (λ l. x ∷ l) (take-append-drop n xs)

  pub length-take : (n : ℕ) (xs : List A) → n ≤ length xs → length (take n xs) ≡ n
  length-take zero xs h = refl
  length-take (suc n) [] h = omega arith
  length-take (suc n) (x ∷ xs) h = omega (arith, length-take n xs (omega arith))

  pub take-length : (xs : List A) → take (length xs) xs ≡ xs
  take-length [] = refl
  take-length (x ∷ xs) = ap (λ l. x ∷ l) (take-length xs)

-- A view of each element.
module _ {ℓ κ} {A : Type ℓ} {B : Type κ} (f : A → B) where
  pub map-set : (xs : List A) (i : ℕ) (v : A) → map f (set xs i v) ≡ set (map f xs) i (f v)
  map-set [] i v = refl
  map-set (x ∷ xs) zero v = refl
  map-set (x ∷ xs) (suc i) v = ap (λ l. f x ∷ l) (map-set xs i v)

  pub get_elem?-map :
      (xs : List A) (i : ℕ) {x : A} → get_elem? xs i ≡ some x → get_elem? (map f xs) i ≡ some (f x)
  get_elem?-map [] i h = cc
  get_elem?-map (x ∷ xs) zero h = cc
  get_elem?-map (x ∷ xs) (suc i) h = get_elem?-map xs i h

  pub map-append : (xs ys : List A) → map f (xs ++ ys) ≡ map f xs ++ map f ys
  map-append [] ys = refl
  map-append (x ∷ xs) ys = ap (λ l. f x ∷ l) (map-append xs ys)

  pub map-replicate : (n : ℕ) (a : A) → map f (replicate n a) ≡ replicate n (f a)
  map-replicate zero a = refl
  map-replicate (suc n) a = ap (λ l. f a ∷ l) (map-replicate n a)

  pub tally-map : (w : B → ℕ) (xs : List A) → tally w (map f xs) ≡ tally (λ x. w (f x)) xs
  unfolding tally
  tally-map w [] = refl
  tally-map w (x ∷ xs) = omega (arith, tally-map w xs)

-- Where one element carries the whole sum, the others weigh nothing.
module _ {ℓ κ} {A : Type ℓ} (Q : A → Type κ) (w : A → ℕ) (light : (x : A) → w x ≡ 0 → Q x) where
  All-light : (xs : List A) → tally w xs ≡ 0 → All Q xs
  unfolding tally
  All-light [] h = tt
  All-light (x ∷ xs) h = (light x (omega arith), All-light xs (omega arith))

  pub All-set_alone :
      (xs : List A) (i : ℕ) (x v : A)
      → get_elem? xs i ≡ some x
      → tally w xs ≡ w x
      → Q v
      → All Q (set xs i v)
  unfolding tally
  All-set_alone [] i x v e h q = tt
  All-set_alone (y ∷ ys) zero x v e h q = (q, All-light ys (ground arith))
  All-set_alone (y ∷ ys) (suc i) x v e h q = (
    light y (omega (arith, tally-ge w ys i x e)),
    All-set_alone ys i x v e (omega (arith, tally-ge w ys i x e)) q,
  )
