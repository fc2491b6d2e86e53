-- ===== src/Ssh/Config/Device.antt =====
-- internal/sshserver/config.go: where the host key lies. os.Stat and filepath.Dir are parameters.
use workspace_websocket_prox.Base.{
  ℕ, zero, suc, ◌<◌, ◌≡◌, ◌⊎◌, inl, inr, Bool, true, false, Option, none, some, List, [], ◌∷◌,
  arith, length, Option-cases, ◌==◌,
}
use workspace_websocket_prox.Base.Text.{Text, codes, text_eq, strip_prefix}
use workspace_websocket_prox.Ssh.Config.{Config, is_abs}

-- `os.FileInfo` as far as it is read: the device number of its Stat_t, where Sys() is one.
pub record FileInfo : Type 0 where
  pub device : Option ℕ

-- `os.Stat` (`none` is an error) and `filepath.Dir`.
pub record Files : Type 0 where
  pub stat : Text → Option FileInfo
  pub dir : Text → Text

-- filepath.Dir of an absolute path is an absolute path, and a shorter one but for the root.
pub record IsFiles (fs : Files) : Type 0 where
  pub dir_abs : (p : Text) → is_abs p ≡ true → is_abs (fs.dir p) ≡ true
  pub dir_shorter : (p : Text) → is_abs p ≡ true → (fs.dir p ≡ p) ⊎ (length (fs.dir p) < length p)
  pub dir_fixed : (p : Text) → is_abs p ≡ true → fs.dir p ≡ p → p ≡ codes "/"

module _ (fs : Files) where
  -- The loop; the outer `none` is fuel run out.
  unfoldable pub stat_nearest_ancestor : ℕ → Text → Option (Option FileInfo)
  stat_nearest_ancestor zero path = none
  stat_nearest_ancestor (suc fuel) path = elim (fs.stat path) [
    | some info ↦ some (some info)
    | none ↦ elim (text_eq (fs.dir path) path) [
      | yes _ ↦ some none
      | no _ ↦ stat_nearest_ancestor fuel (fs.dir path)
    ]
  ]

  abbrev same : Option ℕ → Option ℕ → Bool
  same (some a) (some b) = a == b
  same _ _ = false

  unfoldable pub on_same_device : FileInfo → FileInfo → Bool
  on_same_device a b = same a.device b.device

  abbrev compared : FileInfo → Option (Option FileInfo) → Bool
  compared root (some (some info)) = on_same_device info root
  compared root _ = false

  unfoldable pub is_on_root_device : Text → Bool
  unfolding stat_nearest_ancestor on_same_device
  is_on_root_device path = elim (fs.stat (codes "/")) [
    | none ↦ false
    | some root ↦ compared root (stat_nearest_ancestor (suc (length path)) path)
  ]

  abbrev pub ephemeral_path_prefixes : List Text
  ephemeral_path_prefixes =
      codes "/tmp/" ∷ codes "/var/tmp/" ∷ codes "/run/" ∷ codes "/dev/shm/" ∷ []

  unfoldable pub has_any_prefix : List Text → Text → Bool
  has_any_prefix [] path = false
  has_any_prefix (prefix ∷ prefixes) path = elim (strip_prefix prefix path) [
    | some _ ↦ true
    | none ↦ has_any_prefix prefixes path
  ]

  unfoldable pub has_ephemeral_host_key_path : Config → Bool
  unfolding is_on_root_device has_any_prefix
  has_ephemeral_host_key_path c = elim (has_any_prefix ephemeral_path_prefixes c.host_key_path) [
    | true ↦ true
    | false ↦ is_on_root_device (fs.dir c.host_key_path)
  ]

  -- The file is the first that exists among a path and its parent directories.
  pub data Nearest (info : FileInfo) : Text → Type 0 where
    here : {p : Text} → fs.stat p ≡ some info → Nearest info p
    above : {p : Text} → fs.stat p ≡ none → Nearest info (fs.dir p) → Nearest info p

  -- If filepath.Dir is as documented and stat of / succeeds, the walk up from an absolute path ends
  -- within one round more than the path has bytes, with the nearest ancestor that exists.
  pub stat_nearest_ancestor_total :
      IsFiles fs
      → {root : FileInfo} → fs.stat (codes "/") ≡ some root
      → (fuel : ℕ) (path : Text) → is_abs path ≡ true
      → length path < fuel
      → (info : FileInfo) × (stat_nearest_ancestor fuel path ≡ some (some info)) × Nearest info path
  unfolding stat_nearest_ancestor
  stat_nearest_ancestor_total law exists zero path a h = absurd (omega arith)
  stat_nearest_ancestor_total law exists (suc fuel) path a h = elim (Option-cases (fs.stat path)) [
    | inr (info, e) ↦ (info, rw (e, stat_nearest_ancestor), here e)
    | inl e ↦ elim (text_eq (fs.dir path) path) [
      | yes fixed ↦ absurd (ground (arith, law.dir_fixed path a fixed))
      | no moved ↦
          let (info, found, near) =
            stat_nearest_ancestor_total law exists fuel (fs.dir path) (law.dir_abs path a)
              (ground (arith, law.dir_shorter path a)) in
          (info, ground arith, above e near)
    ]
  ]
