-- ===== src/Ssh/Shell.antt =====
-- internal/sshserver/shell.go: the command, environment and directory of a session.
-- strings.TrimSpace, os.Stat and the order in which Go ranges over a map are parameters.
pub mod Entries
pub mod Environment
mod Examples
use workspace_websocket_prox.Base.{
  Bool, true, false, Option, none, some, List, [], ◌∷◌, ◌++◌, map, ite, if◌then◌else◌,
}
use workspace_websocket_prox.Base.Text.{Text, codes, text_eq, cut, strip_prefix}
use workspace_websocket_prox.Base.Dict.{Dict, put}
use workspace_websocket_prox.Ssh.Config.{User}

abbrev pub shell_bash : Text
shell_bash = codes "/bin/bash"

abbrev pub shell_sh : Text
shell_sh = codes "/bin/sh"

-- `exec.Cmd` as far as the program fills it in.
pub record Cmd : Type 0 where
  pub path : Text
  pub args : List Text
  pub env : List Text
  pub dir : Text

-- `exec.Command`
abbrev command : Text → List Text → Cmd
command path args = record { path = path; args = args; env = []; dir = [] }

unfoldable pub build_shell_command : (Text → Text) → Text → Bool → Text → Cmd
build_shell_command trim_space shell login_shell raw_cmd =
    ite (text_eq (trim_space raw_cmd) [])
      (if login_shell then command shell (codes "-l" ∷ []) else command shell [])
      (if login_shell
        then command shell (codes "-lc" ∷ raw_cmd ∷ [])
        else command shell (codes "-c" ∷ raw_cmd ∷ []))

-- What os.Stat says of a path: an error, or whether it is a directory.
abbrev pub Stat : Type 0
Stat = Text → Option Bool

abbrev is_file : Option Bool → Bool
is_file (some false) = true
is_file _ = false

unfoldable pub first_shell : Stat → List Text → Text
first_shell stat [] = shell_sh
first_shell stat (c ∷ cs) =
    ite (text_eq c []) (first_shell stat cs) (if is_file (stat c) then c else first_shell stat cs)

-- The argument is $SHELL.
unfoldable pub resolve_shell : Stat → Text → Text
unfolding first_shell
resolve_shell stat shell = first_shell stat (shell ∷ shell_bash ∷ shell_sh ∷ [])

-- `key + "=" + value`
abbrev pub entry : Text × Text → Text
entry (key, value) = key ++ b'=' ∷ value

unfoldable pub add_entry : Dict → Text → Dict
add_entry merged e = elim (cut b'=' e) [ none ↦ merged | some (key, value) ↦ put merged key value ]

unfoldable pub merged_from : Dict → List Text → Dict
merged_from merged [] = merged
merged_from merged (e ∷ es) = merged_from (add_entry merged e) es

-- `os.Environ()` comes first, so the client's variables are written last.
unfoldable pub merge_env : (Dict → Dict) → List Text → List Text → List Text
unfolding merged_from add_entry
merge_env order environ session_env = map entry (order (merged_from [] (environ ++ session_env)))

unfoldable pub lookup_env : List Text → Text → Option Text
lookup_env [] key = none
lookup_env (e ∷ es) key = elim (strip_prefix (key ++ b'=' ∷ []) e) [
  | some value ↦ some value
  | none ↦ lookup_env es key
]

abbrev pub env_home : Text
env_home = codes "HOME"

abbrev pub env_user : Text
env_user = codes "USER"

abbrev pub env_logname : Text
env_logname = codes "LOGNAME"

-- One of the three appends: the variable, unless it is there or its value is empty.
abbrev pub add_missing : Text → Text → Option Text → List Text → List Text
add_missing key value (some _) env = env
add_missing key value none env = ite (text_eq value []) env (env ++ entry (key, value) ∷ [])

abbrev from_user : Option Text → Option Text → Option Text → Option User → List Text → List Text
from_user home user logname none env = env
from_user home user logname (some current) env =
    add_missing env_logname current.username logname
      (add_missing env_user current.username user (add_missing env_home current.home_dir home env))

abbrev has_all : Option Text → Option Text → Option Text → Bool
has_all (some _) (some _) (some _) = true
has_all _ _ _ = false

unfoldable pub with_passwd_fallback : Option User → List Text → List Text
with_passwd_fallback user env =
    let home = lookup_env env env_home in
    let name = lookup_env env env_user in
    let logname = lookup_env env env_logname in
    if has_all home name logname then env else from_user home name logname user env

abbrev existing_dir : Option Bool → Text → Text
existing_dir (some true) home = home
existing_dir _ home = []

unfoldable pub session_working_dir : Stat → List Text → Text
session_working_dir stat env = elim (lookup_env env env_home) [
  | none ↦ []
  | some home ↦ ite (text_eq home []) [] (existing_dir (stat home) home)
]

-- The part of handleSession in server.go that fills in the command.
unfoldable pub session_command :
    (trim_space : Text → Text) (stat : Stat) (order : Dict → Dict) (shell : Text)
    (user : Option User) (login_shell : Bool) (environ session_env : List Text) (raw_cmd : Text)
    → Cmd
session_command trim_space stat order shell user login_shell environ session_env raw_cmd =
    let env = with_passwd_fallback user (merge_env order environ session_env) in
    record (build_shell_command trim_space (resolve_shell stat shell) login_shell raw_cmd) {
      env = env;
      dir = session_working_dir stat env;
    }
