-- ===== src/Proxy/HealthCheck.antt =====
-- cmd/ws-proxy/main.go: the health check mode, which asks the proxy that runs in the same container.
use workspace_websocket_prox.Base.{
  ℕ, ◌≡◌, ◌∙◌, ap, refl, Bool, true, false, Option, none, some, List, [], ◌∷◌, ◌++◌, if◌then◌else◌,
  ◌==◌, ite,
}
use workspace_websocket_prox.Base.Int.{ℤ}
use workspace_websocket_prox.Base.Text.{Text, codes, cut_last, has_byte, text_eq}
use workspace_websocket_prox.Base.Text.Laws.{cut_last-append}
use workspace_websocket_prox.Proxy.Config.{Env, getenv, get_env, read_config}
mod Examples

-- The port with its colon, or the whole address if it has none.
abbrev port_of : Text → Option (Text × Text) → Text
port_of addr none = addr
port_of addr (some (host, port)) = b':' ∷ port

unfoldable pub health_check_url : Env → Text
unfolding getenv
health_check_url env =
    let addr =
      ite (text_eq (getenv env (codes "LISTEN_ADDR")) []) (codes ":8080")
        (getenv env (codes "LISTEN_ADDR")) in
    codes "http://127.0.0.1" ++ port_of addr (cut_last b':' addr) ++ codes "/health"

-- The exit status, by the status of the response; `none` is an error of Get.
unfoldable pub health_check_exit : Option ℕ → ℕ
health_check_exit none = 1
health_check_exit (some status) = if status == 200 then 0 else 1

url_lem :
    (addr host port : Text)
    → addr ≡ host ++ b':' ∷ port
    → has_byte b':' port ≡ false
    → codes "http://127.0.0.1" ++ port_of addr (cut_last b':' addr) ++ codes "/health"
      ≡ codes "http://127.0.0.1:" ++ port ++ codes "/health"
url_lem addr host port e f =
    ap (λ p. codes "http://127.0.0.1" ++ p ++ codes "/health")
      (ap (λ a. port_of a (cut_last b':' a)) e
        ∙ ap (port_of (host ++ b':' ∷ port)) (cut_last-append b':' host port f))

-- In any environment in which LoadConfig's ListenAddr is a host, a colon and a port that has no
-- colon, the health check asks for /health on 127.0.0.1 at that port.
pub health_check_url-listen_addr :
    (parse_duration : Text → Option ℤ) (env : Env) (host port : Text)
    → (read_config parse_duration env).listen_addr ≡ host ++ b':' ∷ port
    → has_byte b':' port ≡ false
    → health_check_url env ≡ codes "http://127.0.0.1:" ++ port ++ codes "/health"
unfolding health_check_url read_config get_env
health_check_url-listen_addr parse_duration env host port e f =
    url_lem (get_env env (codes "LISTEN_ADDR") (codes ":8080")) host port e f
