-- ===== src/Ssh/Startup.antt =====
-- cmd/remote-access-server/main.go, and New and Shutdown of internal/sshserver/server.go: from the
-- environment and the flags to a server, and from a signal or an error to an exit status.
pub mod Address
pub mod Override
pub mod Status
pub mod Examples
use workspace_websocket_prox.Base.{
  ℕ, ◌*◌, Bool, true, false, Option, none, some, List, [], ◌∷◌, ◌++◌, ite, if◌then◌else◌,
}
use workspace_websocket_prox.Base.Int.{ℤ, pos, eqb_ℤ}
use workspace_websocket_prox.Base.Text.{Text, codes, text_eq, decimal_text}
use workspace_websocket_prox.Ssh.Loopback.{Net, loopback_ipv4}
use workspace_websocket_prox.Ssh.Config.{Config, ConfigError, Env, System, load_config, validate}
use workspace_websocket_prox.Ssh.Config.Device.{Files, has_ephemeral_host_key_path}
use workspace_websocket_prox.Ssh.HostKey.{
  Disk, Answer, KeyResult, loaded, generated, ReadResult, load_or_create_host_key,
}
use workspace_websocket_prox.Ssh.Forward.{request_type_forward, request_type_cancel_forward}

-- The flags' values, and the names of those that the command line sets, as flag.Visit visits them.
pub record Flags : Type 0 where
  pub port : ℤ
  pub host_key : Text
  pub login_shell : Bool
  pub set_flags : List Text

-- flag.Visit with the function of isFlagSet.
unfoldable pub visit : Text → Bool → List Text → Bool
visit name found [] = found
visit name found (f ∷ fs) = visit name (ite (text_eq f name) true found) fs

unfoldable pub is_flag_set : Text → Flags → Bool
unfolding visit
is_flag_set name f = visit name false f.set_flags

-- The part of main that lets the flags override the environment.
unfoldable pub apply_flags : Flags → Config → Config
unfolding is_flag_set
apply_flags f c = record c {
  listen_addr =
      if eqb_ℤ f.port (pos 0) then c.listen_addr else loopback_ipv4 ++ b':' ∷ decimal_text f.port;
  host_key_path = ite (text_eq f.host_key []) c.host_key_path f.host_key;
  login_shell = if is_flag_set (codes "login-shell") f then f.login_shell else c.login_shell;
}

-- The ssh.Server that New fills in, with the types that it has handlers for. `warned` says whether
-- New logs that the host key does not survive a restart.
pub record SshServer (Signer : Type 0) : Type 0 where
  pub config : Config
  pub addr : Text
  pub host_signer : Signer
  pub idle_timeout : ℤ
  pub channel_handlers : List Text
  pub request_handlers : List Text
  pub subsystem_handlers : List Text
  pub warned : Bool

-- What New returns.
pub data NewResult (Signer : Type 0) : Type 0 where
  server : SshServer Signer → NewResult Signer
  bad_config : ConfigError → NewResult Signer
  bad_host_key : KeyResult Signer → NewResult Signer

-- What New finds outside itself: the key file, a generated PEM, and how the calls of
-- loadOrCreateHostKey answer.
pub record Host : Type 0 where
  pub read : Text → ReadResult
  pub generated_pem : Option Text
  pub mkdir_all : Bool
  pub answers : List Answer

module _ (net : Net) (fs : Files) {Signer : Type 0} (parse_private_key : Text → Option Signer) where
  abbrev built : Config → Signer → NewResult Signer
  built c signer = server (record {
    config = c;
    addr = c.listen_addr;
    host_signer = signer;
    idle_timeout = c.idle_timeout;
    channel_handlers = codes "session" ∷ codes "direct-tcpip" ∷ [];
    request_handlers = request_type_forward ∷ request_type_cancel_forward ∷ [];
    subsystem_handlers = codes "sftp" ∷ [];
    warned = has_ephemeral_host_key_path fs c;
  })

  abbrev with_key : Config → KeyResult Signer → NewResult Signer
  with_key c (loaded signer) = built c signer
  with_key c (generated signer) = built c signer
  with_key c r = bad_host_key r

  unfoldable pub new_server : Config → Host → Disk → Disk × NewResult Signer
  unfolding load_or_create_host_key
  new_server c host d = elim (validate net c) [
    | some e ↦ (d, bad_config e)
    | none ↦
        let (d', r) =
          load_or_create_host_key parse_private_key (host.read c.host_key_path) host.generated_pem
            host.mkdir_all host.answers d in
        (d', with_key c r)
  ]

  -- main up to the call of New.
  unfoldable pub start_server : System → Env → Flags → Host → Disk → Disk × NewResult Signer
  unfolding new_server load_config apply_flags
  start_server sys env flags host d = new_server (apply_flags flags (load_config sys env)) host d

-- The errors of the library's Shutdown, ListenAndServe and Close that the program tells apart.
pub data ServeError : Type 0 where
  deadline_exceeded canceled server_closed other : ServeError

-- Server.Shutdown, from what the library's Shutdown and Close return.
unfoldable pub shutdown : Option ServeError → Option ServeError → Option ServeError
shutdown (some deadline_exceeded) close = close
shutdown (some canceled) close = close
shutdown drained close = drained

-- What main's select receives: the signal, and how Shutdown goes, or the end of ListenAndServe.
pub data Wake : Type 0 where
  signaled : (drained close : Option ServeError) → Wake
  served : Option ServeError → Wake

abbrev failed : Option ServeError → ℕ
failed none = 0
failed (some e) = 1

-- The exit status of main; 0 is its return.
unfoldable pub exit_status : {Signer : Type 0} → NewResult Signer → Wake → ℕ
unfolding shutdown
exit_status (bad_config e) w = 1
exit_status (bad_host_key r) w = 1
exit_status (server s) (signaled drained close) = failed (shutdown drained close)
exit_status (server s) (served (some server_closed)) = 0
exit_status (server s) (served e) = failed e
