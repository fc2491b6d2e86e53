-- ===== src/Ssh/Config/Validate.antt =====
-- Exactly which configurations the server starts with.
use workspace_websocket_prox.Base.{
  ◌≡◌, ◌≢◌, ◌⊎◌, ◌↔◌, inl, inr, true, false, none, some, arith, Option-cases,
}
use workspace_websocket_prox.Base.Int.{ℤ, pos, ◌≤ℤ◌}
use workspace_websocket_prox.Base.Text.{Text, strip_prefix}
use workspace_websocket_prox.Base.Text.Parse.{atoi, split_host_port}
use workspace_websocket_prox.Ssh.Loopback.{Net, IsNet, is_loopback}
use workspace_websocket_prox.Ssh.Forward.{any_bind_addresses}
use workspace_websocket_prox.Ssh.Config.{Config, validate, is_abs}

-- What a configuration with the given host and port texts has to satisfy.
pub record IsAcceptable (net : Net) (c : Config) (host port : Text) (number : ℤ) : Type 0 where
  pub splits : split_host_port c.listen_addr ≡ some (host, port)
  pub numeral : atoi port ≡ some number
  pub port_low : pos 1 ≤ℤ number
  pub port_high : number ≤ℤ pos 65535
  pub absolute : is_abs c.host_key_path ≡ true
  pub sessions : pos 0 ≤ℤ c.max_sessions
  pub idle : pos 0 ≤ℤ c.idle_timeout
  pub local : (c.allow_non_loopback ≡ true) ⊎ (is_loopback net host ≡ true)

module _ (net : Net) where
  -- A configuration that validate accepts has a listen address of host and port, with a port
  -- number from 1 to 65535, an absolute host key path, no negative limit, and a loopback host
  -- unless AllowNonLoopback is set.
  pub validate-IsAcceptable :
      (c : Config)
      → validate net c ≡ none
      → (host port : Text) × (number : ℤ) × IsAcceptable net c host port number
  unfolding validate
  validate-IsAcceptable c h = elim (Option-cases (split_host_port c.listen_addr)) [
    | inl e ↦ absurd (ground arith)
    | inr ((host, port), e) ↦ elim (Option-cases (atoi port)) [
      | inl f ↦ absurd (ground arith)
      | inr (number, f) ↦ (host, port, number, ground arith)
    ]
  ]

  -- And every such configuration is accepted.
  pub IsAcceptable-validate :
      (c : Config) (host port : Text) (number : ℤ)
      → IsAcceptable net c host port number
      → validate net c ≡ none
  unfolding validate strip_prefix
  IsAcceptable-validate c host port number a = ground arith

  -- validate accepts exactly the configurations with a listen address of host and port, a port
  -- number from 1 to 65535, an absolute host key path, no negative limit, and a loopback host unless
  -- AllowNonLoopback is set.
  pub validate_lem :
      (c : Config)
      → (validate net c ≡ none)
        ↔ ((host port : Text) × (number : ℤ) × IsAcceptable net c host port number)
  validate_lem c = (
    validate-IsAcceptable c,
    λ (host, port, number, a). IsAcceptable-validate c host port number a,
  )

  -- A wildcard bind is refused unless AllowNonLoopback is set, whatever the other settings.
  pub validate-any :
      IsNet net
      → (c : Config) (host port : Text) → split_host_port c.listen_addr ≡ some (host, port)
      → any_bind_addresses host ≡ true
      → c.allow_non_loopback ≡ false
      → validate net c ≢ none
  unfolding validate is_loopback any_bind_addresses
  validate-any n c host port s w f h = ground arith
