-- ===== src/Ssh/Config.antt =====
-- internal/sshserver/config.go. Unset variables read as empty; a duration is a number of
-- nanoseconds. time.ParseDuration, filepath.Join and what the system says of the user are
-- parameters.
pub mod Validate
pub mod Device
mod Examples
use workspace_websocket_prox.Base.{
  ℕ, Bool, true, false, not, ◌||◌, ◌&&◌, Option, none, some, List, [], ◌∷◌, ◌++◌, ◌*◌, ite,
  if◌then◌else◌,
}
use workspace_websocket_prox.Base.Int.{ℤ, pos, leb_ℤ, ltb_ℤ}
use workspace_websocket_prox.Base.Text.{Text, codes, text_eq, itoa, strip_prefix}
use workspace_websocket_prox.Base.Text.Parse.{atoi, parse_bool, split_host_port}
use workspace_websocket_prox.Ssh.Loopback.{Net, is_loopback, loopback_ipv4}

abbrev pub default_port : ℕ
default_port = 2222

abbrev pub default_max_sessions : ℤ
default_max_sessions = pos 10

abbrev pub default_idle_timeout : ℤ
default_idle_timeout = pos (12 * 3600 * 1000000000)

pub record Config : Type 0 where
  pub listen_addr : Text
  pub host_key_path : Text
  pub idle_timeout : ℤ
  pub max_sessions : ℤ
  pub login_shell : Bool
  pub allow_non_loopback : Bool

-- `os.LookupEnv`, and `os.Getenv` over it.
abbrev pub Env : Type 0
Env = Text → Option Text

unfoldable pub getenv : Env → Text → Text
getenv env key = elim (env key) [ none ↦ [] | some value ↦ value ]

-- An entry of the passwd file, as `user.Current` gives it.
pub record User : Type 0 where
  pub home_dir : Text
  pub username : Text

-- `os.UserHomeDir`, `user.Current` (where they fail, `none`), `filepath.Join` and
-- `time.ParseDuration`.
pub record System : Type 0 where
  pub user_home_dir : Option Text
  pub current_user : Option User
  pub join : Text → Text → Text → Text
  pub parse_duration : Text → Option ℤ

unfoldable pub get_env : Env → Text → Text → Text
unfolding getenv
get_env env key default_value = ite (text_eq (getenv env key) []) default_value (getenv env key)

abbrev or_default {ℓ} : {A : Type ℓ} → Option A → A → A
or_default none d = d
or_default (some n) d = n

-- The three typed getters, over the parser of the type.
unfoldable pub get_parsed_env {ℓ} : {A : Type ℓ} → (Text → Option A) → Env → Text → A → A
unfolding getenv
get_parsed_env parse env key default_value =
    ite (text_eq (getenv env key) []) default_value
      (or_default (parse (getenv env key)) default_value)

unfoldable pub get_int_env : Env → Text → ℤ → ℤ
unfolding get_parsed_env
get_int_env = get_parsed_env atoi

unfoldable pub get_bool_env : Env → Text → Bool → Bool
unfolding get_parsed_env
get_bool_env = get_parsed_env parse_bool

abbrev from_passwd : Option User → Text
from_passwd none = []
from_passwd (some u) = u.home_dir

unfoldable pub home_dir : System → Text
home_dir sys = elim sys.user_home_dir [
  | none ↦ from_passwd sys.current_user
  | some home ↦ ite (text_eq home []) (from_passwd sys.current_user) home
]

unfoldable pub default_host_key_path : System → Text
unfolding home_dir
default_host_key_path sys =
    ite (text_eq (home_dir sys) []) []
      (sys.join (home_dir sys) (codes ".ssh") (codes "ssh_host_ed25519_key"))

unfoldable pub load_config : System → Env → Config
unfolding get_env get_int_env get_bool_env get_parsed_env default_host_key_path
load_config sys env = record {
  listen_addr = get_env env (codes "SSH_LISTEN_ADDR") (loopback_ipv4 ++ b':' ∷ itoa default_port);
  host_key_path = get_env env (codes "SSH_HOST_KEY_PATH") (default_host_key_path sys);
  idle_timeout =
      get_parsed_env sys.parse_duration env (codes "SSH_IDLE_TIMEOUT") default_idle_timeout;
  max_sessions = get_int_env env (codes "SSH_MAX_SESSIONS") default_max_sessions;
  login_shell = get_bool_env env (codes "SSH_LOGIN_SHELL") false;
  allow_non_loopback = get_bool_env env (codes "SSH_ALLOW_NON_LOOPBACK") false;
}

pub data ConfigError : Type 0 where
  not_host_port : Text → ConfigError
  bad_port : Text → ConfigError
  empty_host_key_path : ConfigError
  relative_host_key_path : Text → ConfigError
  negative_max_sessions : ℤ → ConfigError
  negative_idle_timeout : ℤ → ConfigError
  not_loopback : Text → ConfigError

abbrev pub port_in_range : Option ℤ → Bool
port_in_range none = false
port_in_range (some p) = not (ltb_ℤ p (pos 1) || ltb_ℤ (pos 65535) p)

-- `filepath.IsAbs`
abbrev pub is_abs : Text → Bool
is_abs p = elim (strip_prefix (codes "/") p) [ none ↦ false | some _ ↦ true ]

module _ (net : Net) where
  -- The checks behind net.SplitHostPort; `none` is a nil error.
  unfoldable pub validate_parts : Config → Text → Text → Option ConfigError
  validate_parts c host port =
      if not (port_in_range (atoi port))
      then some (bad_port port)
      else ite (text_eq c.host_key_path []) (some empty_host_key_path) (
          if not (is_abs c.host_key_path)
          then some (relative_host_key_path c.host_key_path)
          else if ltb_ℤ c.max_sessions (pos 0)
          then some (negative_max_sessions c.max_sessions)
          else if ltb_ℤ c.idle_timeout (pos 0)
          then some (negative_idle_timeout c.idle_timeout)
          else if not c.allow_non_loopback && not (is_loopback net host)
          then some (not_loopback c.listen_addr)
          else none)

  unfoldable pub validate : Config → Option ConfigError
  unfolding validate_parts
  validate c = elim (split_host_port c.listen_addr) [
    | none ↦ some (not_host_port c.listen_addr)
    | some (host, port) ↦ validate_parts c host port
  ]
