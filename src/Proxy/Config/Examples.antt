-- ===== src/Proxy/Config/Examples.antt =====
-- Environments over a duration parser that knows two texts.
use workspace_websocket_prox.Base.{◌≡◌, ◌≢◌, ◌↔◌, refl, Option, none, some, arith, ite}
use workspace_websocket_prox.Base.Int.{ℤ, pos}
use workspace_websocket_prox.Base.Text.{Text, codes, text_eq, itoa}
use workspace_websocket_prox.Base.Text.Parse.{atoi}
use workspace_websocket_prox.Proxy.Config.{
  Env, Config, ok, read_config, load_config, panics, new_ticker, prober_interval, target_addr,
  get_int_env, get_env, get_duration_env, get_env_allow_empty,
}
use workspace_websocket_prox.Proxy.Config.Valid.{
  IsValid, load_config-IsValid, load_config-malformed, unset, only, new_ticker-ping_interval,
}

abbrev known_durations : Text → Option ℤ
known_durations s = ite (text_eq s (codes "0s")) (some (pos 0)) none

abbrev empty_env : Env
empty_env key = none

defaults_addr : target_addr (read_config known_durations empty_env) ≡ codes "127.0.0.1:2222"
unfolding target_addr read_config get_int_env get_env get_duration_env get_env_allow_empty text_eq
    itoa
defaults_addr = refl

load_config-IsValid_example :
    (load_config known_durations empty_env ≡ ok (read_config known_durations empty_env))
    ↔ IsValid (read_config known_durations empty_env)
load_config-IsValid_example = load_config-IsValid known_durations empty_env

abbrev bad_port : Env
bad_port = only (codes "TARGET_PORT") (codes "22x")

load_config-malformed_test :
    load_config known_durations bad_port
    ≡ load_config known_durations (unset bad_port (codes "TARGET_PORT"))
unfolding atoi text_eq
load_config-malformed_test = load_config-malformed known_durations bad_port (codes "22x") refl refl

new_ticker-ping_interval_example :
    let env = only (codes "PING_INTERVAL") (codes "0s") in
    let c = read_config known_durations env in
    (load_config known_durations env ≡ ok c)
    × (new_ticker c.ping_interval ≡ panics)
    × ((c' : Config) → new_ticker (prober_interval c') ≢ panics)
unfolding text_eq
new_ticker-ping_interval_example =
    new_ticker-ping_interval known_durations (codes "0s") (pos 0) (λ e. cc) refl (omega arith)
