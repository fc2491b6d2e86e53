-- ===== src/Ssh/Shell/Entries.antt =====
-- Entries KEY=value, read back by key.
use mathlib.Core.List.{Perm}
use workspace_websocket_prox.Base.{
  ◌≡◌, refl, sym, ◌∙◌, inl, inr, false, Option, none, some, List, [], ◌∷◌, ◌++◌, map, ite, arith,
  All, Option-cases,
}
use workspace_websocket_prox.Base.Text.{Text, text_eq, cut, strip_prefix, has_byte}
use workspace_websocket_prox.Base.Dict.{
  Dict, get, put, IsDistinct, get-put, put-IsDistinct, put-All, get-perm, All-perm, IsDistinct-perm,
}
use workspace_websocket_prox.Ssh.Shell.{entry, add_entry, merged_from, lookup_env, merge_env}

abbrev pub IsKey : Text → Type 0
IsKey key = has_byte b'=' key ≡ false

-- An entry has the prefix `key=` exactly when its own key is that key.
pub strip_prefix-entry :
    (k j v : Text)
    → IsKey k
    → IsKey j
    → strip_prefix (k ++ b'=' ∷ []) (entry (j, v)) ≡ ite (text_eq j k) (some v) none
unfolding strip_prefix has_byte
strip_prefix-entry [] [] v hk hj = ground arith
strip_prefix-entry [] (c ∷ j) v hk hj = ground arith
strip_prefix-entry (d ∷ k) [] v hk hj = ground arith
strip_prefix-entry (d ∷ k) (c ∷ j) v hk hj = ground (arith, strip_prefix-entry k j v)

-- Before the first `=`, and behind it.
cut-entry : (s key value : Text) → cut b'=' s ≡ some (key, value) → IsKey key
unfolding cut has_byte
cut-entry [] key value e = cc
cut-entry (c ∷ s) key value e = elim (Option-cases (cut b'=' s)) [
  | inl n ↦ ground arith
  | inr ((a, b), q) ↦ ground (arith, cut-entry s a b q)
]

-- The value that an entry gives to a key.
abbrev given : Option (Text × Text) → Text → Option Text
given none k = none
given (some (j, v)) k = ite (text_eq j k) (some v) none

abbrev pub or_else : Option Text → Option Text → Option Text
or_else (some v) d = some v
or_else none d = d

or_else-none : (o : Option Text) → or_else o none ≡ o
or_else-none none = refl
or_else-none (some v) = refl

-- The value that the last of some entries gives to a key.
unfoldable pub last_value : List Text → Text → Option Text
last_value [] k = none
last_value (e ∷ es) k = or_else (last_value es k) (given (cut b'=' e) k)

get-merged_from :
    (m : Dict) (es : List Text) (k : Text)
    → get (merged_from m es) k ≡ or_else (last_value es k) (get m k)
unfolding merged_from last_value add_entry
get-merged_from m [] k = refl
get-merged_from m (e ∷ es) k = elim (Option-cases (cut b'=' e)) [
  | inl c ↦ rw (c, add_entry) (get-merged_from m es k ∙ ground arith)
  | inr ((j, v), c) ↦
      rw (c, add_entry) (get-merged_from (put m j v) es k ∙ ground (arith, get-put m j v k))
]

abbrev HasKey : Text × Text → Type 0
HasKey (k, v) = IsKey k

HasKey-prop : (e : Text × Text) → IsProp (HasKey e)
HasKey-prop (k, v) = hlevel

merged_from_inv :
    (m : Dict) (es : List Text)
    → IsDistinct m
    → All HasKey m
    → IsDistinct (merged_from m es) × All HasKey (merged_from m es)
unfolding merged_from add_entry
merged_from_inv m [] d h = (d, h)
merged_from_inv m (e ∷ es) d h = elim (Option-cases (cut b'=' e)) [
  | inl c ↦ rw (c, add_entry) (merged_from_inv m es d h)
  | inr ((j, v), c) ↦
      rw (c, add_entry)
        (merged_from_inv (put m j v) es (put-IsDistinct m j v d)
          (put-All HasKey m j v (cut-entry e j v c) h))
]

lookup_env-entries :
    (m : Dict) (k : Text) → IsKey k → All HasKey m → lookup_env (map entry m) k ≡ get m k
unfolding lookup_env get
lookup_env-entries [] k hk h = refl
lookup_env-entries ((j, v) ∷ m) k hk h =
    ground (arith, strip_prefix-entry k j v hk h.0, lookup_env-entries m k hk h.1)

-- The merged environment gives each variable its last value, in whatever order the map is ranged
-- over.
pub lookup_env-merge_env :
    (order : Dict → Dict) (environ session_env : List Text) (k : Text)
    → ((m : Dict) → Perm m (order m))
    → IsKey k
    → lookup_env (merge_env order environ session_env) k ≡ last_value (environ ++ session_env) k
unfolding merge_env get
lookup_env-merge_env order environ session_env k shuffles hk =
    let es = environ ++ session_env in
    let m = merged_from [] es in
    let (distinct, keys) = merged_from_inv [] es tt tt in
    lookup_env-entries (order m) k hk (All-perm HasKey HasKey-prop (shuffles m) keys)
    ∙ sym (get-perm m (order m) k (shuffles m) distinct)
    ∙ get-merged_from [] es k
    ∙ or_else-none (last_value es k)

pub last_value-append :
    (xs ys : List Text) (k : Text)
    → last_value (xs ++ ys) k ≡ or_else (last_value ys k) (last_value xs k)
unfolding last_value
last_value-append [] ys k = sym (or_else-none (last_value ys k))
last_value-append (x ∷ xs) ys k = ground (arith, last_value-append xs ys k)

pub lookup_env-append :
    (xs ys : List Text) (k : Text)
    → lookup_env (xs ++ ys) k ≡ or_else (lookup_env xs k) (lookup_env ys k)
unfolding lookup_env
lookup_env-append [] ys k = refl
lookup_env-append (x ∷ xs) ys k = elim (Option-cases (strip_prefix (k ++ b'=' ∷ []) x)) [
  | inl e ↦ rw (e, lookup_env) (lookup_env-append xs ys k)
  | inr (v, e) ↦ rw (e, lookup_env)
]

pub cut-key : (k v : Text) → IsKey k → cut b'=' (entry (k, v)) ≡ some (k, v)
unfolding cut has_byte
cut-key [] v h = ground arith
cut-key (c ∷ k) v h = ground (arith, cut-key k v)

last_value-entries :
    (m : Dict) (k : Text) → IsDistinct m → All HasKey m → last_value (map entry m) k ≡ get m k
unfolding last_value get
last_value-entries [] k d h = refl
last_value-entries ((j, v) ∷ m) k d h =
    ground (arith, cut-key j v h.0, last_value-entries m k d.1 h.1)

-- A merged environment has one entry for each variable, so that the last value is the only one.
pub last_value-merge_env :
    (order : Dict → Dict) (environ session_env : List Text) (k : Text)
    → ((m : Dict) → Perm m (order m))
    → last_value (merge_env order environ session_env) k ≡ last_value (environ ++ session_env) k
unfolding merge_env get
last_value-merge_env order environ session_env k shuffles =
    let es = environ ++ session_env in
    let m = merged_from [] es in
    let (distinct, keys) = merged_from_inv [] es tt tt in
    last_value-entries (order m) k (IsDistinct-perm m (order m) (shuffles m) distinct)
      (All-perm HasKey HasKey-prop (shuffles m) keys)
    ∙ sym (get-perm m (order m) k (shuffles m) distinct)
    ∙ get-merged_from [] es k
    ∙ or_else-none (last_value es k)

-- An entry that stands last decides.
pub last_value-entry :
    (xs : List Text) (j v k : Text)
    → IsKey j
    → last_value (xs ++ entry (j, v) ∷ []) k ≡ ite (text_eq j k) (some v) (last_value xs k)
unfolding last_value
last_value-entry xs j v k h =
    ground (arith, last_value-append xs (entry (j, v) ∷ []) k, cut-key j v h)
