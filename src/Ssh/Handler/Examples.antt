-- ===== src/Ssh/Handler/Examples.antt =====
-- A session with a terminal: the client sets PATH and TERM itself.
use mathlib.Core.List.{Perm}
use mathlib.Core.List.Perm
use workspace_websocket_prox.Base.{◌≡◌, refl, true, false, none, some, List, [], ◌∷◌}
use workspace_websocket_prox.Base.Text.{Text, codes}
use workspace_websocket_prox.Base.Dict.{Dict}
use workspace_websocket_prox.Ssh.Shell.{Stat, Cmd, session_command}
use workspace_websocket_prox.Ssh.Shell.Entries.{or_else, last_value}
use workspace_websocket_prox.Ssh.Shell.Environment.{passwd_value}
use workspace_websocket_prox.Ssh.Exit.{exit_error, exited, session_code}
use workspace_websocket_prox.Ssh.Handler.{
  Pty, Answers, pty_command, finish, run_with_pty, handle_session, launch,
}
use workspace_websocket_prox.Ssh.Handler.Trace.{
  exits, idle, holding, Follows, handle_session-IsOrderly,
}
use workspace_websocket_prox.Ssh.Handler.Child.{commands, terminal_value, last_value-handle_session}

abbrev as_sent : Text → Text
as_sent s = s

abbrev in_order : Dict → Dict
in_order m = m

in_order-perm : (m : Dict) → Perm m (in_order m)
in_order-perm m = Perm.refl m

abbrev no_files : Stat
no_files p = none

abbrev server_env : List Text
server_env = codes "HOME=/home/jovyan" ∷ codes "LANG=C" ∷ []

abbrev client_env : List Text
client_env = codes "TERM=dumb" ∷ codes "PATH=/b" ∷ []

abbrev terminal : Pty
terminal = record { term = codes "xterm"; height = 24; width = 80 }

abbrev answers : Answers
answers = record { stdin_error = false; start_error = none; wait_error = exit_error (exited 3) }

abbrev built : Cmd
built = session_command as_sent no_files in_order [] none false server_env client_env (codes "ls")

abbrev child : Cmd
child = pty_command terminal built

child_started : commands (handle_session true (some terminal) answers built) ≡ child ∷ []
unfolding handle_session run_with_pty finish commands
child_started = refl

last_value-handle_session_example :
    last_value child.env (codes "TERM")
    ≡ or_else (terminal_value (some terminal) (codes "TERM")) (
        or_else
          (last_value client_env (codes "TERM"))
          (or_else (last_value server_env (codes "TERM")) (passwd_value none (codes "TERM"))))
last_value-handle_session_example =
    last_value-handle_session as_sent no_files in_order [] none false server_env client_env
      (codes "ls") true (some terminal) answers child (codes "TERM") in_order-perm child_started

handle_session-IsOrderly_example :
    Follows (holding true) (handle_session true (some terminal) answers built) idle
    × (exits (handle_session true (some terminal) answers built)
        ≡ session_code true (launch (some terminal) answers) ∷ [])
handle_session-IsOrderly_example = handle_session-IsOrderly true (some terminal) answers built
