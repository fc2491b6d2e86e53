-- ===== src/Ssh/Handler/Child.antt =====
-- What the command of a session reads from its environment: os/exec gives it, of the entries for one
-- variable, the last.
use mathlib.Core.List.{Perm}
use workspace_websocket_prox.Base.{
  ◌≡◌, ◌∙◌, sym, refl, ap, Bool, Option, none, some, List, [], ◌∷◌, ite, arith,
}
use workspace_websocket_prox.Base.Text.{Text, codes, text_eq, has_byte}
use workspace_websocket_prox.Base.Dict.{Dict}
use workspace_websocket_prox.Ssh.Config.{User}
use workspace_websocket_prox.Ssh.Shell.{
  Stat, Cmd, entry, lookup_env, merge_env, env_home, env_user, env_logname, add_missing,
  with_passwd_fallback, session_command,
}
use workspace_websocket_prox.Ssh.Shell.Entries.{
  IsKey, or_else, last_value, last_value-merge_env, last_value-append, cut-key, last_value-entry,
  lookup_env-merge_env,
}
use workspace_websocket_prox.Ssh.Shell.Environment.{passwd_value, supplied}
use workspace_websocket_prox.Ssh.Handler.{
  Pty, Event, starts, Answers, pty_command, finish, run_with_pty, run_without_pty, handle_session,
}

last_value-add_missing :
    (key value : Text) (o : Option Text) (env : List Text) (k : Text)
    → IsKey key
    → last_value env key ≡ o
    → last_value (add_missing key value o env) k
      ≡ or_else (last_value env k) (supplied key value o k)
last_value-add_missing key value (some _) env k hk h = ground arith
last_value-add_missing key value none env k hk h =
    ground (arith, last_value-entry env key value k hk)

-- A lookup finds the value that the last entry has.
abbrev Agree : List Text → Type 0
Agree env = (k : Text) → IsKey k → lookup_env env k ≡ last_value env k

last_value-with_passwd_fallback :
    (user : Option User) (env : List Text) (k : Text)
    → Agree env
    → last_value (with_passwd_fallback user env) k
      ≡ or_else (last_value env k) (passwd_value user k)
unfolding with_passwd_fallback has_byte
last_value-with_passwd_fallback none env k same = ground arith
last_value-with_passwd_fallback (some u) env k same =
    let home = lookup_env env env_home in
    let name = lookup_env env env_user in
    let logname = lookup_env env env_logname in
    let env' = add_missing env_home u.home_dir home env in
    let env'' = add_missing env_user u.username name env' in
    let in_home = λ (j : Text).
      last_value-add_missing env_home u.home_dir home env j refl (sym (same env_home refl)) in
    let in_user = λ (j : Text).
      last_value-add_missing env_user u.username name env' j refl
        (in_home env_user ∙ ground (arith, same env_user refl)) in
    let in_logname =
      last_value-add_missing env_logname u.username logname env'' k refl
        (in_user env_logname ∙ ground (arith, in_home env_logname, same env_logname refl)) in
    ground (
      arith,
      in_home k,
      in_user k,
      in_logname,
      same env_home refl,
      same env_user refl,
      same env_logname refl,
    )

merge_env-Agree :
    (order : Dict → Dict) (environ session_env : List Text)
    → ((m : Dict) → Perm m (order m))
    → Agree (merge_env order environ session_env)
merge_env-Agree order environ session_env shuffles k h =
    lookup_env-merge_env order environ session_env k shuffles h
    ∙ sym (last_value-merge_env order environ session_env k shuffles)

last_value-pty_command :
    (p : Pty) (cmd : Cmd) (k : Text)
    → last_value (pty_command p cmd).env k
      ≡ ite
          (text_eq (codes "COLORTERM") k)
          (some (codes "truecolor"))
          (ite (text_eq (codes "TERM") k) (some p.term) (last_value cmd.env k))
unfolding pty_command last_value has_byte
last_value-pty_command p cmd k = ground (
  arith,
  last_value-append cmd.env
      (entry (codes "TERM", p.term) ∷ entry (codes "COLORTERM", codes "truecolor") ∷ []) k,
  cut-key (codes "TERM") p.term refl,
  cut-key (codes "COLORTERM") (codes "truecolor") refl,
)

last_value-session_command :
    (trim_space : Text → Text) (stat : Stat) (order : Dict → Dict) (shell : Text)
    (user : Option User) (login_shell : Bool) (environ session_env : List Text) (raw_cmd : Text)
    (k : Text)
    → ((m : Dict) → Perm m (order m))
    → last_value
        (session_command trim_space stat order shell user login_shell environ session_env
          raw_cmd).env
        k
      ≡ or_else (last_value session_env k) (or_else (last_value environ k) (passwd_value user k))
unfolding session_command
last_value-session_command trim_space stat order shell user login_shell environ session_env raw_cmd
      k shuffles =
    let env = merge_env order environ session_env in
    last_value-with_passwd_fallback user env k (merge_env-Agree order environ session_env shuffles)
    ∙ ground (
      arith,
      last_value-merge_env order environ session_env k shuffles,
      last_value-append environ session_env k,
    )

abbrev pub terminal_value : Option Pty → Text → Option Text
terminal_value none k = none
terminal_value (some p) k =
    ite (text_eq (codes "COLORTERM") k) (some (codes "truecolor"))
      (ite (text_eq (codes "TERM") k) (some p.term) none)

abbrev command_for : Option Pty → Cmd → Cmd
command_for none cmd = cmd
command_for (some p) cmd = pty_command p cmd

last_value-command_for :
    (pty : Option Pty) (cmd : Cmd) (k : Text)
    → last_value (command_for pty cmd).env k ≡ or_else (terminal_value pty k) (last_value cmd.env k)
last_value-command_for none cmd k = refl
last_value-command_for (some p) cmd k = ground (arith, last_value-pty_command p cmd k)

-- The commands that a handler starts.
unfoldable pub commands : List Event → List Cmd
commands [] = []
commands (starts terminal c ∷ es) = c ∷ commands es
commands (_ ∷ es) = commands es

commands-handle_session :
    (acquired : Bool) (pty : Option Pty) (a : Answers) (cmd c : Cmd)
    → commands (handle_session acquired pty a cmd) ≡ c ∷ []
    → c ≡ command_for pty cmd
unfolding handle_session run_with_pty run_without_pty finish commands
commands-handle_session acquired pty a cmd c h = ground arith

-- A command that handleSession starts reads each of its variables from the terminal that the
-- client asked for (TERM and COLORTERM), else from the client's last value, else from the server's,
-- else from the passwd entry, in whatever order Go ranges over the merged map.
pub last_value-handle_session :
    (trim_space : Text → Text) (stat : Stat) (order : Dict → Dict) (shell : Text)
    (user : Option User) (login_shell : Bool) (environ session_env : List Text) (raw_cmd : Text)
    (acquired : Bool) (pty : Option Pty) (a : Answers) (c : Cmd) (k : Text)
    → ((m : Dict) → Perm m (order m))
    → commands (
        handle_session acquired pty a (
          session_command trim_space stat order shell user login_shell environ session_env raw_cmd))
      ≡ c ∷ []
    → last_value c.env k
      ≡ or_else (terminal_value pty k) (
          or_else (last_value session_env k) (or_else (last_value environ k) (passwd_value user k)))
last_value-handle_session trim_space stat order shell user login_shell environ session_env raw_cmd
      acquired pty a c k shuffles h =
    let cmd =
      session_command trim_space stat order shell user login_shell environ session_env raw_cmd in
    ap (λ c. last_value c.env k) (commands-handle_session acquired pty a cmd c h)
    ∙ last_value-command_for pty cmd k
    ∙ ap (or_else (terminal_value pty k)) (
        last_value-session_command trim_space stat order shell user login_shell environ session_env
          raw_cmd k shuffles)
