-- ===== src/Proxy/HealthCheck/Examples.antt =====
-- The health check in two environments.
use workspace_websocket_prox.Base.{◌≡◌, refl, none, some, ◌++◌, ite}
use workspace_websocket_prox.Base.Text.{codes, cut_last, text_eq, has_byte}
use workspace_websocket_prox.Proxy.Config.{Env, getenv, get_env, read_config}
use workspace_websocket_prox.Proxy.HealthCheck.{health_check_url, health_check_url-listen_addr}

abbrev unset : Env
unset _ = none

abbrev every_address : Env
every_address key = ite (text_eq key (codes "LISTEN_ADDR")) (some (codes "0.0.0.0:9000")) none

default_url : health_check_url unset ≡ codes "http://127.0.0.1:8080/health"
unfolding health_check_url text_eq cut_last
default_url = refl

health_check_url-listen_addr_test :
    health_check_url every_address ≡ codes "http://127.0.0.1:" ++ codes "9000" ++ codes "/health"
unfolding read_config get_env getenv text_eq has_byte
health_check_url-listen_addr_test =
    health_check_url-listen_addr (λ _. none) every_address (codes "0.0.0.0") (codes "9000") refl
      refl
