-- ===== src/Ssh/Startup/Override.antt =====
-- cmd/remote-access-server/main.go: which flags override the environment.
use workspace_websocket_prox.Base.{
  ℕ, zero, suc, ◌≡◌, ◌≢◌, ◌↔◌, refl, inl, inr, ap, true, false, some, List, [], ◌∷◌, arith, ite,
  Bool-cases, get_elem?,
}
use workspace_websocket_prox.Base.Text.{Text, codes, text_eq}
use workspace_websocket_prox.Ssh.Config.{Config}
use workspace_websocket_prox.Ssh.Startup.{Flags, visit, is_flag_set, apply_flags}

-- The command line sets the flag of that name.
abbrev pub IsGiven : Text → List Text → Type 0
IsGiven name fs = (i : ℕ) × (get_elem? fs i ≡ some name)

visit-found : (name : Text) (fs : List Text) → visit name true fs ≡ true
unfolding visit
visit-found name [] = refl
visit-found name (f ∷ fs) = ground (arith, visit-found name fs)

IsGiven-tail : (name f : Text) (fs : List Text) → f ≢ name → IsGiven name (f ∷ fs) → IsGiven name fs
IsGiven-tail name f fs n (zero, e) = absurd (n (cc))
IsGiven-tail name f fs n (suc i, e) = (i, e)

visit-IsGiven : (name : Text) (fs : List Text) → (visit name false fs ≡ true) ↔ IsGiven name fs
unfolding visit
visit-IsGiven name [] = (λ e. cc, λ (i, e). cc)
visit-IsGiven name (f ∷ fs) =
    let (sound, complete) = visit-IsGiven name fs in
    elim (text_eq f name)
      as (λ d. (visit name (ite d true false) fs ≡ true) ↔ IsGiven name (f ∷ fs)) [
        | yes e ↦ (λ _. (zero, ap some e), λ _. visit-found name fs)
        | no n ↦
            (λ e. let (i, g) = sound e in (suc i, g), λ h. complete (IsGiven-tail name f fs n h))
      ]

-- isFlagSet finds exactly the flags that the command line sets.
pub is_flag_set-IsGiven :
    (name : Text) (f : Flags) → (is_flag_set name f ≡ true) ↔ IsGiven name f.set_flags
unfolding is_flag_set
is_flag_set-IsGiven name f = visit-IsGiven name f.set_flags

-- The login shell is the flag's value where the command line sets that flag, be it to false, and
-- that of SSH_LOGIN_SHELL otherwise.
pub login_shell-apply_flags :
    (f : Flags) (c : Config)
    → (IsGiven (codes "login-shell") f.set_flags → (apply_flags f c).login_shell ≡ f.login_shell)
      × (¬ IsGiven (codes "login-shell") f.set_flags
          → (apply_flags f c).login_shell ≡ c.login_shell)
unfolding apply_flags
login_shell-apply_flags f c =
    let (sound, complete) = is_flag_set-IsGiven (codes "login-shell") f in
    elim (Bool-cases (is_flag_set (codes "login-shell") f)) [
      | inl e ↦ (λ h. rw e refl, λ n. absurd (n (sound e)))
      | inr e ↦ (λ h. absurd (ground (arith, complete h)), λ n. rw e refl)
    ]
