-- ===== src/Ssh/Shell/Examples.antt =====
-- A client that sets PATH twice, at a server without HOME.
use mathlib.Core.List.{Perm}
use mathlib.Core.List.Perm
use workspace_websocket_prox.Base.{
  ◌≡◌, refl, ◌⊎◌, true, false, Option, none, some, List, [], ◌∷◌, ite,
}
use workspace_websocket_prox.Base.Text.{Text, codes, text_eq, has_byte, cut, strip_prefix}
use workspace_websocket_prox.Base.Dict.{Dict, put}
use workspace_websocket_prox.Ssh.Config.{User}
use workspace_websocket_prox.Ssh.Shell.{
  Stat, Cmd, env_home, lookup_env, session_command, merge_env, with_passwd_fallback,
  session_working_dir, build_shell_command, resolve_shell,
}
use workspace_websocket_prox.Ssh.Shell.Entries.{or_else, last_value}
use workspace_websocket_prox.Ssh.Shell.Environment.{
  passwd_value, lookup_env-session_command, dir-session_command,
}

abbrev as_sent : Text → Text
as_sent s = s

abbrev in_order : Dict → Dict
in_order m = m

in_order-perm : (m : Dict) → Perm m (in_order m)
in_order-perm m = Perm.refl m

abbrev only_home : Stat
only_home p = ite (text_eq p (codes "/home/jovyan")) (some true) none

abbrev jovyan : Option User
jovyan = some (record { home_dir = codes "/home/jovyan"; username = codes "jovyan" })

abbrev server_env : List Text
server_env = codes "PATH=/bin" ∷ codes "LANG=C" ∷ []

abbrev client_env : List Text
client_env = codes "PATH=/a" ∷ codes "PATH=/b" ∷ []

abbrev session : Cmd
session =
    session_command as_sent only_home in_order [] jovyan false server_env client_env (codes "ls")

lookup_env-session_command_test :
    lookup_env session.env (codes "PATH")
    ≡ or_else
        (last_value client_env (codes "PATH"))
        (or_else (last_value server_env (codes "PATH")) (passwd_value jovyan (codes "PATH")))
unfolding has_byte
lookup_env-session_command_test =
    lookup_env-session_command as_sent only_home in_order [] jovyan false server_env client_env
      (codes "ls") (codes "PATH") in_order-perm refl

dir-session_command_test :
    (session.dir ≡ [])
    ⊎ ((lookup_env session.env env_home ≡ some session.dir) × (only_home session.dir ≡ some true))
dir-session_command_test =
    dir-session_command as_sent only_home in_order [] jovyan false server_env client_env
      (codes "ls")

session_dir : session.dir ≡ codes "/home/jovyan"
unfolding session_command merge_env with_passwd_fallback session_working_dir build_shell_command
    resolve_shell text_eq cut strip_prefix lookup_env put
session_dir = refl
