-- ===== src/Proxy/Config.antt =====
-- internal/proxy/config.go. The process environment is a function; a duration is a number of
-- nanoseconds. time.ParseDuration is a parameter.
pub mod Valid
mod Examples
use workspace_websocket_prox.Base.{
  ℕ, Bool, true, false, ◌||◌, Option, none, some, List, [], ◌∷◌, ◌++◌, ◌*◌, ◌+◌, ite, if◌then◌else◌,
}
use workspace_websocket_prox.Base.Int.{ℤ, pos, negsuc, leb_ℤ, ltb_ℤ}
use workspace_websocket_prox.Base.Text.{Text, codes, text_eq, decimal_text}
use workspace_websocket_prox.Base.Text.Parse.{atoi}

-- `os.LookupEnv`
abbrev pub Env : Type 0
Env = Text → Option Text

pub record Config : Type 0 where
  pub listen_addr : Text
  pub target_host : Text
  pub target_port : ℤ
  pub max_session_duration : ℤ
  pub ping_interval : ℤ
  pub ping_timeout : ℤ
  pub max_connections : ℤ
  pub read_limit : ℤ
  pub revalidation_interval : ℤ
  pub revalidation_endpoint : Text
  pub target_health_banner_prefix : Text
  pub target_health_interval : ℤ

abbrev pub second : ℕ
second = 1000000000

abbrev pub target_health_dial_timeout : ℤ
target_health_dial_timeout = pos (2 * second)

abbrev pub default_target_health_banner_prefix : Text
default_target_health_banner_prefix = codes "SSH-2.0-"

abbrev pub default_target_health_interval : ℤ
default_target_health_interval = pos (30 * second)

-- The errors that LoadConfig returns, with the values they print.
pub data ConfigError : Type 0 where
  bad_target_port : ℤ → ConfigError
  bad_ping_interval : (interval timeout : ℤ) → ConfigError
  bad_read_limit : ℤ → ConfigError
  bad_target_health_interval : ℤ → ConfigError

pub data Result {ℓ} (A : Type ℓ) : Type ℓ where
  ok : A → Result A
  err : ConfigError → Result A

-- `os.Getenv`: a variable that is not set reads as empty.
unfoldable pub getenv : Env → Text → Text
getenv env key = elim (env key) [ none ↦ [] | some value ↦ value ]

unfoldable pub get_env : Env → Text → Text → Text
unfolding getenv
get_env env key default_value = ite (text_eq (getenv env key) []) default_value (getenv env key)

unfoldable pub get_env_allow_empty : Env → Text → Text → Text
get_env_allow_empty env key default_value = elim (env key) [
  | none ↦ default_value
  | some value ↦ value
]

abbrev or_default : Option ℤ → ℤ → ℤ
or_default none d = d
or_default (some n) d = n

unfoldable pub get_int_env : Env → Text → ℤ → ℤ
unfolding getenv
get_int_env env key default_value =
    ite (text_eq (getenv env key) []) default_value
      (or_default (atoi (getenv env key)) default_value)

-- The checks, in order.
unfoldable pub check : Config → Result Config
check c =
    if ltb_ℤ c.target_port (pos 1) || ltb_ℤ (pos 65535) c.target_port
    then err (bad_target_port c.target_port)
    else if leb_ℤ c.ping_timeout c.ping_interval
    then err (bad_ping_interval c.ping_interval c.ping_timeout)
    else if ltb_ℤ c.read_limit (pos 1024) || ltb_ℤ (pos (10 * 1024 * 1024)) c.read_limit
    then err (bad_read_limit c.read_limit)
    else if leb_ℤ c.target_health_interval target_health_dial_timeout
    then err (bad_target_health_interval c.target_health_interval)
    else ok c

module _ (parse_duration : Text → Option ℤ) where
  unfoldable pub get_duration_env : Env → Text → ℤ → ℤ
  unfolding getenv
  get_duration_env env key default_value =
      ite (text_eq (getenv env key) []) default_value
        (or_default (parse_duration (getenv env key)) default_value)

  -- The literal that LoadConfig builds before its checks.
  unfoldable pub read_config : Env → Config
  read_config env = record {
    listen_addr = get_env env (codes "LISTEN_ADDR") (codes ":8080");
    target_host = get_env env (codes "TARGET_HOST") (codes "127.0.0.1");
    target_port = get_int_env env (codes "TARGET_PORT") (pos 2222);
    max_session_duration =
        get_duration_env env (codes "MAX_SESSION_DURATION") (pos (12 * 3600 * second));
    ping_interval = get_duration_env env (codes "PING_INTERVAL") (pos (30 * second));
    ping_timeout = get_duration_env env (codes "PING_TIMEOUT") (pos (60 * second));
    max_connections = get_int_env env (codes "MAX_CONNECTIONS") (pos 10);
    read_limit = get_int_env env (codes "READ_LIMIT") (pos 65536);
    revalidation_interval =
        get_duration_env env (codes "REVALIDATION_INTERVAL") (pos (5 * 60 * second));
    revalidation_endpoint = get_env env (codes "REVALIDATION_ENDPOINT") [];
    target_health_banner_prefix =
        get_env_allow_empty env (codes "TARGET_HEALTH_BANNER_PREFIX")
          default_target_health_banner_prefix;
    target_health_interval =
        get_duration_env env (codes "TARGET_HEALTH_INTERVAL") default_target_health_interval;
  }

  unfoldable pub load_config : Env → Result Config
  unfolding check
  load_config env = check (read_config env)

unfoldable pub target_addr : Config → Text
target_addr c = c.target_host ++ b':' ∷ decimal_text c.target_port

-- `time.NewTicker`, which panics at an interval that is not positive.
pub data Ticker : Type 0 where
  ticking : ℤ → Ticker
  panics : Ticker

unfoldable pub new_ticker : ℤ → Ticker
new_ticker d = if leb_ℤ d (pos 0) then panics else ticking d

-- internal/proxy/targethealth.go, the head of startTargetProber.
unfoldable pub prober_interval : Config → ℤ
prober_interval c =
    if leb_ℤ c.target_health_interval (pos 0)
    then default_target_health_interval
    else c.target_health_interval
