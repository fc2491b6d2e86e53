-- ===== src/Pairing.antt =====
-- cmd/ws-proxy and cmd/remote-access-server side by side: TargetAddr of internal/proxy/config.go and
-- the address that the main function of the SSH server listens on.
mod Examples
use workspace_websocket_prox.Base.{
  ℕ, suc, ◌+◌, ◌^◌, ◌<◌, ◌≡◌, ◌≢◌, ◌∙◌, ◌⊎◌, sym, ap, refl, inl, inr, Option, none, some, [], ◌∷◌,
  ◌++◌, arith,
}
use workspace_websocket_prox.Base.Int.{ℤ, pos}
use workspace_websocket_prox.Base.Text.{Text, codes, itoa, decimal_text, text_eq}
use workspace_websocket_prox.Base.Text.Parse.{atoi}
use workspace_websocket_prox.Base.Text.RoundTrip.{atoi-itoa}
use workspace_websocket_prox.Proxy.Config as Proxy
use workspace_websocket_prox.Proxy.Config.{target_addr, read_config}
use workspace_websocket_prox.Ssh.Config as Ssh
use workspace_websocket_prox.Ssh.Config.{System, load_config}
use workspace_websocket_prox.Ssh.Config.Device.{Files}
use workspace_websocket_prox.Ssh.HostKey.{Disk}
use workspace_websocket_prox.Ssh.Loopback.{Net, loopback_ipv4}
use workspace_websocket_prox.Ssh.Startup.{Flags, SshServer, server, Host, apply_flags, start_server}
use workspace_websocket_prox.Ssh.Startup.Address.{new_server-config}

-- Neither program is told of an address, or the SSH server is told of a port by its flag and the
-- proxy by TARGET_PORT.
abbrev pub ArePaired : Proxy.Env → Ssh.Env → ℤ → Type 0
ArePaired env env' port =
    (env (codes "TARGET_HOST") ≡ none)
    × (((port ≡ pos 0)
          × (env (codes "TARGET_PORT") ≡ none)
          × (env' (codes "SSH_LISTEN_ADDR") ≡ none))
        ⊎ ((n : ℕ) × (port ≡ pos (suc n))
            × (suc n < 2 ^ 63)
            × (env (codes "TARGET_PORT") ≡ some (itoa (suc n)))))

proxy_unset : (env : Proxy.Env) (key d : Text) → env key ≡ none → Proxy.get_env env key d ≡ d
unfolding Proxy.get_env
proxy_unset env key d e = ground arith

port_unset :
    (env : Proxy.Env) (key : Text) (d : ℤ) → env key ≡ none → Proxy.get_int_env env key d ≡ d
unfolding Proxy.get_int_env
port_unset env key d e = ground arith

itoa-ne-nil : (n : ℕ) → n < 2 ^ 63 → itoa n ≢ []
unfolding atoi
itoa-ne-nil n h e = ground (arith, atoi-itoa n, ap atoi e)

port_set :
    (env : Proxy.Env) (key : Text) (d : ℤ) (n : ℕ)
    → n < 2 ^ 63
    → env key ≡ some (itoa n)
    → Proxy.get_int_env env key d ≡ pos n
unfolding Proxy.get_int_env
port_set env key d n h e = ground (arith, atoi-itoa n, itoa-ne-nil n h)

ssh_unset : (env : Ssh.Env) (key d : Text) → env key ≡ none → Ssh.get_env env key d ≡ d
unfolding Ssh.get_env
ssh_unset env key d e = ground arith

-- Port `n` of 127.0.0.1.
abbrev local_addr : ℕ → Text
local_addr n = loopback_ipv4 ++ b':' ∷ itoa n

listen_default :
    (sys : System) (env : Ssh.Env) (f : Flags)
    → f.port ≡ pos 0
    → env (codes "SSH_LISTEN_ADDR") ≡ none
    → (apply_flags f (load_config sys env)).listen_addr ≡ local_addr 2222
unfolding apply_flags load_config
listen_default sys env f z e =
    ground (arith, ssh_unset env (codes "SSH_LISTEN_ADDR") (local_addr 2222) e)

listen_flag :
    (sys : System) (env : Ssh.Env) (f : Flags) (n : ℕ)
    → f.port ≡ pos (suc n)
    → (apply_flags f (load_config sys env)).listen_addr ≡ local_addr (suc n)
unfolding apply_flags
listen_flag sys env f n e = ground arith

target_lem :
    (parse_duration : Text → Option ℤ) (env : Proxy.Env) (n : ℕ)
    → env (codes "TARGET_HOST") ≡ none
    → Proxy.get_int_env env (codes "TARGET_PORT") (pos 2222) ≡ pos n
    → target_addr (read_config parse_duration env) ≡ local_addr n
unfolding target_addr read_config
target_lem parse_duration env n h e =
    rw (proxy_unset env (codes "TARGET_HOST") (codes "127.0.0.1") h, e)

paired_lem :
    (parse_duration : Text → Option ℤ) (env : Proxy.Env) (sys : System) (env' : Ssh.Env) (f : Flags)
    → ArePaired env env' f.port
    → target_addr (read_config parse_duration env)
      ≡ (apply_flags f (load_config sys env')).listen_addr
paired_lem parse_duration env sys env' f (h, inl (z, t, l)) =
    target_lem parse_duration env 2222 h (port_unset env (codes "TARGET_PORT") (pos 2222) t)
    ∙ sym (listen_default sys env' f z l)
paired_lem parse_duration env sys env' f (h, inr (n, z, small, t)) =
    target_lem parse_duration env (suc n) h
      (port_set env (codes "TARGET_PORT") (pos 2222) (suc n) small t)
    ∙ sym (listen_flag sys env' f n z)

-- If the proxy has no TARGET_HOST, and either no port is set anywhere or the port of the SSH
-- server's flag is the numeral in TARGET_PORT, then the proxy dials the address that a server which
-- main starts listens on, whatever else the two environments have.
pub target_addr-start_server :
    (net : Net) (fs : Files) {Signer : Type 0} (parse_private_key : Text → Option Signer)
    (parse_duration : Text → Option ℤ) (env : Proxy.Env) (sys : System) (env' : Ssh.Env)
    (flags : Flags) (host : Host) (d : Disk) (s : SshServer Signer)
    → ArePaired env env' flags.port
    → (start_server net fs parse_private_key sys env' flags host d).1 ≡ server s
    → target_addr (read_config parse_duration env) ≡ s.addr
unfolding start_server
target_addr-start_server net fs parse_private_key parse_duration env sys env' flags host d s p e =
    paired_lem parse_duration env sys env' flags p
    ∙ sym (
        (new_server-config net fs parse_private_key (apply_flags flags (load_config sys env')) host
          d s e).2)
