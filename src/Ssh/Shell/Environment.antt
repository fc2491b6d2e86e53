-- ===== src/Ssh/Shell/Environment.antt =====
-- Where a session's variables come from.
use mathlib.Core.List.{Perm}
use workspace_websocket_prox.Base.{
  ◌≡◌, refl, ◌⊎◌, Bool, true, Option, none, some, List, [], ◌∷◌, ite, arith,
}
use workspace_websocket_prox.Base.Text.{Text, text_eq, has_byte}
use workspace_websocket_prox.Base.Dict.{Dict}
use workspace_websocket_prox.Ssh.Config.{User}
use workspace_websocket_prox.Ssh.Shell.{
  Stat, entry, lookup_env, merge_env, env_home, env_user, env_logname, add_missing,
  with_passwd_fallback, session_working_dir, session_command,
}
use workspace_websocket_prox.Ssh.Shell.Entries.{
  IsKey, or_else, last_value, strip_prefix-entry, lookup_env-merge_env, last_value-append,
  lookup_env-append,
}

abbrev nonempty : Text → Option Text
nonempty v = ite (text_eq v []) none (some v)

-- The value that the passwd entry has for a variable.
abbrev pub passwd_value : Option User → Text → Option Text
passwd_value none k = none
passwd_value (some u) k = ite (text_eq env_home k) (nonempty u.home_dir) (
    ite (text_eq env_user k) (nonempty u.username)
      (ite (text_eq env_logname k) (nonempty u.username) none))

abbrev pub supplied : Text → Text → Option Text → Text → Option Text
supplied key value (some _) k = none
supplied key value none k = ite (text_eq key k) (nonempty value) none

lookup_env-add_missing :
    (key value : Text) (o : Option Text) (env : List Text) (k : Text)
    → IsKey key
    → IsKey k
    → lookup_env (add_missing key value o env) k
      ≡ or_else (lookup_env env k) (supplied key value o k)
unfolding lookup_env
lookup_env-add_missing key value (some _) env k hk h = ground arith
lookup_env-add_missing key value none env k hk h =
    ground (
      arith,
      lookup_env-append env (entry (key, value) ∷ []) k,
      strip_prefix-entry k key value h hk,
    )

lookup_env-with_passwd_fallback :
    (user : Option User) (env : List Text) (k : Text)
    → IsKey k
    → lookup_env (with_passwd_fallback user env) k
      ≡ or_else (lookup_env env k) (passwd_value user k)
unfolding with_passwd_fallback has_byte
lookup_env-with_passwd_fallback none env k h = ground arith
lookup_env-with_passwd_fallback (some u) env k h =
    let home = lookup_env env env_home in
    let name = lookup_env env env_user in
    let logname = lookup_env env env_logname in
    let env' = add_missing env_home u.home_dir home env in
    let env'' = add_missing env_user u.username name env' in
    ground (
      arith,
      lookup_env-add_missing env_home u.home_dir home env k refl h,
      lookup_env-add_missing env_user u.username name env' k refl h,
      lookup_env-add_missing env_logname u.username logname env'' k refl h,
    )

-- Every variable of a session has the value that the client sent last, else the value of the
-- server's own environment, else that of the passwd entry, in whatever order Go ranges over the
-- merged map.
pub lookup_env-session_command :
    (trim_space : Text → Text) (stat : Stat) (order : Dict → Dict) (shell : Text)
    (user : Option User) (login_shell : Bool) (environ session_env : List Text) (raw_cmd : Text)
    (k : Text)
    → ((m : Dict) → Perm m (order m))
    → IsKey k
    → lookup_env
        (session_command trim_space stat order shell user login_shell environ session_env
          raw_cmd).env
        k
      ≡ or_else (last_value session_env k) (or_else (last_value environ k) (passwd_value user k))
unfolding session_command
lookup_env-session_command trim_space stat order shell user login_shell environ session_env raw_cmd
      k shuffles h =
    ground (
      arith,
      lookup_env-with_passwd_fallback user (merge_env order environ session_env) k h,
      lookup_env-merge_env order environ session_env k shuffles h,
      last_value-append environ session_env k,
    )

-- A session starts in the HOME of its own environment, where that is a directory, and otherwise in
-- the server's.
pub dir-session_command :
    (trim_space : Text → Text) (stat : Stat) (order : Dict → Dict) (shell : Text)
    (user : Option User) (login_shell : Bool) (environ session_env : List Text) (raw_cmd : Text)
    → let c =
        session_command trim_space stat order shell user login_shell environ session_env raw_cmd in
      (c.dir ≡ []) ⊎ ((lookup_env c.env env_home ≡ some c.dir) × (stat c.dir ≡ some true))
unfolding session_command session_working_dir
dir-session_command trim_space stat order shell user login_shell environ session_env raw_cmd =
    ground arith
