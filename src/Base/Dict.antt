-- ===== src/Base/Dict.antt =====
-- A Go map with text keys, as a list of its entries in some order.
use mathlib.Core.Path.{◌≡◌, refl, ◌∙◌, subst}
use mathlib.Core.Logic.{ite, ∥∥₁_elim}
use mathlib.Core.List.{List, [], ◌∷◌, Perm, Permᴰ}
use mathlib.Core.Option.{Option, none, some}
use native.Mathlib.Omega.{arith}
use workspace_websocket_prox.Base.Tests.{ite_both}
use workspace_websocket_prox.Base.Lists.{All}
use workspace_websocket_prox.Base.Text.{Text, text_eq}

abbrev pub Dict : Type 0
Dict = List (Text × Text)

unfoldable pub get : Dict → Text → Option Text
get [] k = none
get ((j, v) ∷ m) k = ite (text_eq j k) (some v) (get m k)

-- `m[k] = v`
unfoldable pub put : Dict → Text → Text → Dict
put [] k v = (k, v) ∷ []
put ((j, w) ∷ m) k v = ite (text_eq j k) ((k, v) ∷ m) ((j, w) ∷ put m k v)

-- No key stands twice.
abbrev pub IsDistinct : Dict → Type 0
IsDistinct [] = Unit {0}
IsDistinct ((k, v) ∷ m) = (get m k ≡ none) × IsDistinct m

pub get-put : (m : Dict) (k v j : Text) → get (put m k v) j ≡ ite (text_eq k j) (some v) (get m j)
unfolding get put
get-put [] k v j = refl
get-put ((i, w) ∷ m) k v j = ground (arith, get-put m k v j)

pub put-IsDistinct : (m : Dict) (k v : Text) → IsDistinct m → IsDistinct (put m k v)
unfolding put get
put-IsDistinct [] k v h = (refl, tt)
put-IsDistinct ((i, w) ∷ m) k v h = ground (arith, put-IsDistinct m k v h.1, get-put m k v i)

-- A property of the entries, kept by a write.
pub put-All :
    (P : Text × Text → Type 0) (m : Dict) (k v : Text) → P (k, v) → All P m → All P (put m k v)
unfolding put
put-All P [] k v p h = (p, tt)
put-All P ((i, w) ∷ m) k v p h =
    ite_both {A = Dict} (All P) (text_eq i k) (p, h.1) (h.0, put-All P m k v p h.1)

abbrev Alike : Dict → Dict → Type 0
Alike l m = ((k : Text) → get l k ≡ get m k) × IsDistinct m

permute : {l m : Dict} → Permᴰ l m → IsDistinct l → Alike l m
unfolding get
permute Permᴰ.nil d = (λ k. refl, tt)
permute (Permᴰ.cons {a = (i, v)} {b = (j, w)} e p) d =
    let (same, rest) = permute p d.1 in
    (λ k. ground (arith, same k), (ground (arith, same i), rest))
permute (Permᴰ.swap {a = (i, v)} {b = (j, w)} {a' = (i', v')} {b' = (j', w')} {l = l} e f) d =
    (λ k. ground arith, ground arith)
permute (Permᴰ.trans p q) d =
    let (first, middle) = permute p d in
    let (second, last) = permute q middle in (λ k. first k ∙ second k, last)

option_text_set : IsSet (Option Text)
option_text_set = hlevel

-- The order of the entries does not matter to a lookup.
pub get-perm : (l m : Dict) (k : Text) → Perm l m → IsDistinct l → get l k ≡ get m k
get-perm l m k p d = ∥∥₁_elim p (option_text_set _ _) (λ q. (permute q d).0 k)

IsDistinct-prop : (m : Dict) → IsProp (IsDistinct m)
IsDistinct-prop [] = hlevel
IsDistinct-prop ((k, v) ∷ m) = hlevel (option_text_set (get m k) none, IsDistinct-prop m)

pub IsDistinct-perm : (l m : Dict) → Perm l m → IsDistinct l → IsDistinct m
IsDistinct-perm l m p d = ∥∥₁_elim p (IsDistinct-prop m) (λ q. (permute q d).1)

module _ (P : Text × Text → Type 0) (prop : (e : Text × Text) → IsProp (P e)) where
  All-prop : (l : Dict) → IsProp (All P l)
  All-prop [] = hlevel
  All-prop (e ∷ l) = hlevel (prop e, All-prop l)

  All-permᴰ : {l m : Dict} → Permᴰ l m → All P l → All P m
  All-permᴰ Permᴰ.nil h = h
  All-permᴰ (Permᴰ.cons e p) h = (subst P e h.0, All-permᴰ p h.1)
  All-permᴰ (Permᴰ.swap e f) h = (subst P f h.1.0, (subst P e h.0, h.1.1))
  All-permᴰ (Permᴰ.trans p q) h = All-permᴰ q (All-permᴰ p h)

  pub All-perm : {l m : Dict} → Perm l m → All P l → All P m
  All-perm {m} p h = ∥∥₁_elim p (All-prop m) (λ q. All-permᴰ q h)
