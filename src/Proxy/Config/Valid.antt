-- ===== src/Proxy/Config/Valid.antt =====
-- What a configuration that LoadConfig returns satisfies, and what it does not.
use workspace_websocket_prox.Base.{
  ◌*◌, ◌≡◌, ◌≢◌, ◌↔◌, ◌∙◌, ap, refl, Option, none, some, [], arith, ite,
}
use workspace_websocket_prox.Base.Int.{ℤ, pos, ◌≤ℤ◌, ◌<ℤ◌}
use workspace_websocket_prox.Base.Text.{Text, codes, text_eq}
use workspace_websocket_prox.Base.Text.Parse.{atoi}
use workspace_websocket_prox.Proxy.Config.{
  Env, Config, ok, get_env, get_env_allow_empty, get_int_env, get_duration_env, read_config, check,
  load_config, target_health_dial_timeout, panics, new_ticker, prober_interval,
}

pub record IsValid (c : Config) : Type 0 where
  pub port_low : pos 1 ≤ℤ c.target_port
  pub port_high : c.target_port ≤ℤ pos 65535
  pub ping : c.ping_interval <ℤ c.ping_timeout
  pub limit_low : pos 1024 ≤ℤ c.read_limit
  pub limit_high : c.read_limit ≤ℤ pos (10 * 1024 * 1024)
  pub health : target_health_dial_timeout <ℤ c.target_health_interval

-- `env` without the variable `key`.
abbrev pub unset : Env → Text → Env
unset env key k = ite (text_eq k key) none (env k)

-- The environment that sets one variable.
abbrev pub only : Text → Text → Env
only key value k = ite (text_eq k key) (some value) none

module _ (parse_duration : Text → Option ℤ) where
  -- LoadConfig returns the values it read exactly when they satisfy every documented bound.
  pub load_config-IsValid :
      (env : Env)
      → (load_config parse_duration env ≡ ok (read_config parse_duration env))
        ↔ IsValid (read_config parse_duration env)
  unfolding load_config
  load_config-IsValid env = (λ h. ground arith, λ h. ground arith)

  malformed_port :
      (env : Env) (value : Text)
      → env (codes "TARGET_PORT") ≡ some value
      → atoi value ≡ none
      → get_int_env env (codes "TARGET_PORT") (pos 2222) ≡ pos 2222
  unfolding get_int_env
  malformed_port env value set bad = ground arith

  read_config-unset :
      (env : Env)
      → record (read_config parse_duration env) { target_port = pos 2222 }
        ≡ read_config parse_duration (unset env (codes "TARGET_PORT"))
  unfolding read_config get_int_env get_env get_duration_env get_env_allow_empty text_eq
  read_config-unset env = refl

  -- A number that does not parse is no error: LoadConfig goes on as if TARGET_PORT were not set.
  pub load_config-malformed :
      (env : Env) (value : Text)
      → env (codes "TARGET_PORT") ≡ some value
      → atoi value ≡ none
      → load_config parse_duration env
        ≡ load_config parse_duration (unset env (codes "TARGET_PORT"))
  unfolding load_config read_config
  load_config-malformed env value set bad =
      ap (λ (n : ℤ). check (record (read_config parse_duration env) { target_port = n }))
        (malformed_port env value set bad)
      ∙ ap (check) (read_config-unset env)

  -- LoadConfig accepts a PING_INTERVAL that is not positive, at which the ticker of pingLoop
  -- panics; the ticker of the target prober never does.
  pub new_ticker-ping_interval :
      (value : Text) (d : ℤ)
      → value ≢ []
      → parse_duration value ≡ some d
      → d ≤ℤ pos 0
      → let env = only (codes "PING_INTERVAL") value in
        let c = read_config parse_duration env in
        (load_config parse_duration env ≡ ok c)
        × (new_ticker c.ping_interval ≡ panics)
        × ((c' : Config) → new_ticker (prober_interval c') ≢ panics)
  unfolding load_config read_config get_int_env get_env get_duration_env get_env_allow_empty text_eq
      new_ticker prober_interval
  new_ticker-ping_interval value d n e low = (ground arith, ground arith, λ c'. ground arith)
