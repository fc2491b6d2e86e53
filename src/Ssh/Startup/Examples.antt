-- ===== src/Ssh/Startup/Examples.antt =====
-- The server's main function on a new home directory.
use workspace_websocket_prox.Base.{
  ℕ, ◌≡◌, ◌↔◌, refl, Bool, true, false, Option, none, some, [], ◌∷◌, ◌++◌, arith, ite, replicate,
}
use workspace_websocket_prox.Base.Int.{ℤ, pos, ◌≤ℤ◌}
use workspace_websocket_prox.Base.Text.{
  Text, codes, text_eq, decimal_text, strip_prefix, itoa, has_byte, cut_last,
}
use workspace_websocket_prox.Base.Text.Parse.{split_host_port, atoi}
use workspace_websocket_prox.Ssh.Loopback.{Net, IsNet, is_loopback, loopback_ipv4}
use workspace_websocket_prox.Ssh.Config.{Env, System, load_config, validate}
use workspace_websocket_prox.Ssh.Config.Device.{Files, has_ephemeral_host_key_path}
use workspace_websocket_prox.Ssh.HostKey.{
  Disk, Answer, not_exist, load_or_create_host_key, write_run, write_step, new_file,
}
use workspace_websocket_prox.Ssh.Startup.{
  Flags, apply_flags, SshServer, server, Host, new_server, start_server, signaled,
  deadline_exceeded, exit_status,
}
use workspace_websocket_prox.Ssh.Startup.Address.{
  HasLimits, validate-apply_flags, start_server-local,
}
use workspace_websocket_prox.Ssh.Startup.Status.{IsClean, exit_status-zero}

abbrev pub loopback_net : Net
loopback_net = record {
  Ip = Bool;
  parse_ip = λ a. ite (text_eq a (codes "127.0.0.1")) (some true) (
      ite (text_eq a (codes "0.0.0.0")) (some false)
        (ite (text_eq a (codes "::")) (some false) none));
  ip_is_loopback = λ b. b;
}

loopback_net-IsNet : IsNet loopback_net
unfolding text_eq
loopback_net-IsNet = record {
  loopback_ipv4 = (true, refl, refl);
  any_ipv4 = (false, refl, refl);
  any_ipv6 = (false, refl, refl);
}

abbrev pub home : System
home = record {
  user_home_dir = some (codes "/home/jovyan");
  current_user = none;
  join = λ a b c. a ++ b'/' ∷ (b ++ b'/' ∷ c);
  parse_duration = λ s. none;
}

-- The environment asks for every address.
abbrev pub exposed : Env
exposed key = ite (text_eq key (codes "SSH_LISTEN_ADDR")) (some (codes "0.0.0.0:22")) none

abbrev pub port_flag : Flags
port_flag = record {
  port = pos 2200;
  host_key = [];
  login_shell = true;
  set_flags = codes "port" ∷ codes "login-shell" ∷ [];
}

abbrev pub files : Files
files = record { stat = λ p. none; dir = λ p. p }

abbrev fine : Answer
fine = record { ok = true; n = 0 }

abbrev pub host : Host
host = record {
  read = λ p. not_exist;
  generated_pem = some (7 ∷ []);
  mkdir_all = true;
  answers = replicate 8 fine;
}

abbrev pub disk : Disk
disk = record { path = none; before = none; temporary = none }

abbrev pub parse : Text → Option ℕ
parse [] = none
parse (x ∷ xs) = some x

abbrev pub started : SshServer ℕ
started = record {
  config = record {
    listen_addr = codes "127.0.0.1:2200";
    host_key_path = codes "/home/jovyan/.ssh/ssh_host_ed25519_key";
    idle_timeout = pos 43200000000000;
    max_sessions = pos 10;
    login_shell = true;
    allow_non_loopback = false;
  };
  addr = codes "127.0.0.1:2200";
  host_signer = 7;
  idle_timeout = pos 43200000000000;
  channel_handlers = codes "session" ∷ codes "direct-tcpip" ∷ [];
  request_handlers = codes "tcpip-forward" ∷ codes "cancel-tcpip-forward" ∷ [];
  subsystem_handlers = codes "sftp" ∷ [];
  warned = false;
}

pub started_here :
    (start_server loopback_net files parse home exposed port_flag host disk).1 ≡ server started
unfolding start_server new_server load_config apply_flags validate split_host_port cut_last has_byte
    atoi text_eq strip_prefix is_loopback itoa load_or_create_host_key write_run write_step new_file
    has_ephemeral_host_key_path
started_here = refl

start_server-local_example :
    (name port : Text) × (number : ℤ) × (split_host_port started.addr ≡ some (name, port))
    × (is_loopback loopback_net name ≡ true)
    × (atoi port ≡ some number)
    × (pos 1 ≤ℤ number)
    × (number ≤ℤ pos 65535)
    × HasLimits started.config
unfolding text_eq
start_server-local_example =
    start_server-local loopback_net files parse home exposed port_flag host disk started refl
      started_here

validate-apply_flags_test :
    ((validate loopback_net (apply_flags port_flag started.config) ≡ none)
      ↔ ((pos 1 ≤ℤ port_flag.port) × (port_flag.port ≤ℤ pos 65535)))
    × (split_host_port (apply_flags port_flag started.config).listen_addr
        ≡ some (loopback_ipv4, decimal_text port_flag.port))
unfolding apply_flags text_eq strip_prefix
validate-apply_flags_test =
    validate-apply_flags loopback_net port_flag started.config loopback_net-IsNet
      (refl, omega arith, omega arith) (λ e. cc)

exit_status-zero_test :
    (exit_status (server started) (signaled (some deadline_exceeded) none) ≡ 0)
    ↔ IsClean (server started) (signaled (some deadline_exceeded) none)
exit_status-zero_test = exit_status-zero (server started) (signaled (some deadline_exceeded) none)
