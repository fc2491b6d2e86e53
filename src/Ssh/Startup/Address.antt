-- ===== src/Ssh/Startup/Address.antt =====
-- Where a server that main starts listens.
use workspace_websocket_prox.Base.{
  ℕ, zero, suc, ◌+◌, ◌≡◌, ◌≢◌, ◌↔◌, ◌∙◌, ◌++◌, ◌||◌, not, refl, sym, ap, subst, inl, inr, Bool,
  true, false, Option, none, some, [], ◌∷◌, arith, Option-cases,
}
use workspace_websocket_prox.Base.Int.{ℤ, pos, negsuc, ◌≤ℤ◌, ltb_ℤ}
use workspace_websocket_prox.Base.Text.{
  Text, codes, text_eq, has_byte, itoa, decimal_text, join_host_port, strip_prefix,
}
use workspace_websocket_prox.Base.Text.Parse.{atoi, split_host_port}
use workspace_websocket_prox.Base.Text.Laws.{has_byte-itoa}
use workspace_websocket_prox.Base.Text.RoundTrip.{
  IsPlain, atoi-itoa, atoi-minus, itoa-IsPlain, split_host_port-join_host_port,
}
use workspace_websocket_prox.Ssh.Loopback.{Net, IsNet, is_loopback, loopback_ipv4}
use workspace_websocket_prox.Ssh.Config.{
  Config, ConfigError, Env, System, load_config, validate, validate_parts, port_in_range, is_abs,
  get_bool_env, get_parsed_env, getenv,
}
use workspace_websocket_prox.Ssh.Config.Device.{Files}
use workspace_websocket_prox.Ssh.Config.Validate.{IsAcceptable, validate-IsAcceptable}
use workspace_websocket_prox.Ssh.HostKey.{Disk, KeyResult, load_or_create_host_key}
use workspace_websocket_prox.Ssh.Startup.{
  Flags, apply_flags, SshServer, NewResult, server, Host, new_server, start_server, with_key,
}

decimal_text-IsPlain : (p : ℤ) → IsPlain (decimal_text p)
unfolding has_byte
decimal_text-IsPlain (pos n) = itoa-IsPlain n
decimal_text-IsPlain (negsuc n) = ground (arith, itoa-IsPlain (n + 1))

has_byte-decimal_text : (p : ℤ) → has_byte b':' (decimal_text p) ≡ false
unfolding has_byte
has_byte-decimal_text (pos n) = has_byte-itoa n
has_byte-decimal_text (negsuc n) = ground (arith, has_byte-itoa (n + 1))

join-loopback_ipv4 :
    (port : Text) → join_host_port loopback_ipv4 port ≡ loopback_ipv4 ++ b':' ∷ port
unfolding join_host_port has_byte
join-loopback_ipv4 port = refl

loopback_ipv4-IsPlain : IsPlain loopback_ipv4
unfolding has_byte
loopback_ipv4-IsPlain = (refl, refl)

split-loopback_ipv4 :
    (p : ℤ)
    → split_host_port (loopback_ipv4 ++ b':' ∷ decimal_text p)
      ≡ some (loopback_ipv4, decimal_text p)
split-loopback_ipv4 p =
    ap split_host_port (sym (join-loopback_ipv4 (decimal_text p)))
    ∙ split_host_port-join_host_port loopback_ipv4 (decimal_text p) loopback_ipv4-IsPlain
        (decimal_text-IsPlain p) (has_byte-decimal_text p)

range-none_positive : (o : Option ℤ) → ((n : ℕ) → o ≢ some (pos (suc n))) → port_in_range o ≡ false
range-none_positive none h = refl
range-none_positive (some (pos zero)) h = ground arith
range-none_positive (some (pos (suc n))) h = absurd (h n refl)
range-none_positive (some (negsuc n)) h = ground arith

range-atoi :
    (p : ℤ) → port_in_range (atoi (decimal_text p)) ≡ not (ltb_ℤ p (pos 1) || ltb_ℤ (pos 65535) p)
range-atoi (pos n) = ground (arith, atoi-itoa n)
range-atoi (negsuc n) =
    range-none_positive (atoi (b'-' ∷ itoa (n + 1))) (atoi-minus (itoa (n + 1))) ∙ ground arith

is_loopback-loopback_ipv4 : (net : Net) → IsNet net → is_loopback net loopback_ipv4 ≡ true
unfolding is_loopback text_eq
is_loopback-loopback_ipv4 net n = ground arith

-- What validate wants of the other fields.
abbrev pub HasLimits : Config → Type 0
HasLimits c =
    (is_abs c.host_key_path ≡ true) × (pos 0 ≤ℤ c.max_sessions) × (pos 0 ≤ℤ c.idle_timeout)

validate-split :
    (net : Net) (c : Config) (host port : Text)
    → split_host_port c.listen_addr ≡ some (host, port)
    → validate net c ≡ validate_parts net c host port
unfolding validate
validate-split net c host port e = ground arith

parts-local :
    (net : Net) (c : Config) (host port : Text)
    → HasLimits c
    → is_loopback net host ≡ true
    → (validate_parts net c host port ≡ none) ↔ (port_in_range (atoi port) ≡ true)
unfolding validate_parts strip_prefix
parts-local net c host port h l = (λ e. ground arith, λ e. ground arith)

in_range :
    (p : ℤ)
    → (not (ltb_ℤ p (pos 1) || ltb_ℤ (pos 65535) p) ≡ true) ↔ ((pos 1 ≤ℤ p) × (p ≤ℤ pos 65535))
in_range p = (λ e. ground arith, λ e. ground arith)

flag_addr :
    (f : Flags) (c : Config)
    → f.port ≢ pos 0
    → (apply_flags f c).listen_addr ≡ loopback_ipv4 ++ b':' ∷ decimal_text f.port
unfolding apply_flags
flag_addr f c p = ground arith

flag-split :
    (f : Flags) (c : Config)
    → f.port ≢ pos 0
    → split_host_port (apply_flags f c).listen_addr ≡ some (loopback_ipv4, decimal_text f.port)
flag-split f c p = ap split_host_port (flag_addr f c p) ∙ split-loopback_ipv4 f.port

-- With the port flag, and otherwise valid settings, validate accepts exactly the ports from 1 to
-- 65535, whatever the environment says of the address, and the address is that port on 127.0.0.1.
pub validate-apply_flags :
    (net : Net) (f : Flags) (c : Config)
    → IsNet net
    → HasLimits (apply_flags f c)
    → f.port ≢ pos 0
    → ((validate net (apply_flags f c) ≡ none) ↔ ((pos 1 ≤ℤ f.port) × (f.port ≤ℤ pos 65535)))
      × (split_host_port (apply_flags f c).listen_addr ≡ some (loopback_ipv4, decimal_text f.port))
validate-apply_flags net f c n h p =
    let v =
      validate-split net (apply_flags f c) loopback_ipv4 (decimal_text f.port) (flag-split f c p) in
    let l =
      parts-local net (apply_flags f c) loopback_ipv4 (decimal_text f.port) h
        (is_loopback-loopback_ipv4 net n) in
    (
      (
        λ e. (in_range f.port).0 (sym (range-atoi f.port) ∙ l.0 (sym v ∙ e)),
        λ b. v ∙ l.1 (range-atoi f.port ∙ (in_range f.port).1 b),
      ),
      flag-split f c p,
    )

getenv-unset : (env : Env) (key : Text) → env key ≡ none → getenv env key ≡ []
unfolding getenv
getenv-unset env key e = ground arith

get_bool_env-unset :
    (env : Env) (key : Text) (d : Bool) → getenv env key ≡ [] → get_bool_env env key d ≡ d
unfolding get_bool_env get_parsed_env
get_bool_env-unset env key d e = ground arith

module _ (net : Net) (fs : Files) {Signer : Type 0} (parse_private_key : Text → Option Signer) where
  built-config :
      (c : Config) (r : KeyResult Signer) (s : SshServer Signer)
      → with_key net fs parse_private_key c r ≡ server s
      → (s.config ≡ c) × (s.addr ≡ c.listen_addr)
  built-config c r s e = ground arith

  bad-ne-server : (x : ConfigError) (s : SshServer Signer) → NewResult.bad_config x ≢ server s
  bad-ne-server x s e = cc

  pub new_server-config :
      (c : Config) (host : Host) (d : Disk) (s : SshServer Signer)
      → (new_server net fs parse_private_key c host d).1 ≡ server s
      → (validate net c ≡ none) × (s.config ≡ c) × (s.addr ≡ c.listen_addr)
  unfolding new_server
  new_server-config c host d s e = elim (Option-cases (validate net c)) [
    | inl v ↦
        let b =
          built-config c
            (load_or_create_host_key parse_private_key (host.read c.host_key_path)
              host.generated_pem host.mkdir_all host.answers d).1
            s (rw (v, new_server) at e) in
        (v, b.0, b.1)
    | inr (x, v) ↦ absurd (bad-ne-server x s (rw (v, new_server) at e))
  ]

  unset-local :
      (sys : System) (env : Env) (flags : Flags)
      → env (codes "SSH_ALLOW_NON_LOOPBACK") ≡ none
      → (apply_flags flags (load_config sys env)).allow_non_loopback ≡ false
  unfolding apply_flags load_config
  unset-local sys env flags e =
      get_bool_env-unset env (codes "SSH_ALLOW_NON_LOOPBACK") false (getenv-unset env _ e)

  local-host :
      (c : Config) (host port : Text) (number : ℤ)
      → IsAcceptable net c host port number
      → c.allow_non_loopback ≡ false
      → is_loopback net host ≡ true
  local-host c host port number a e = ground (arith, a.local)

  -- Unless SSH_ALLOW_NON_LOOPBACK is set, a server that main starts listens at a loopback host and a
  -- port from 1 to 65535, whatever the other variables and the flags are, and was given an absolute
  -- host key path and no negative limit.
  pub start_server-local :
      (sys : System) (env : Env) (flags : Flags) (host : Host) (d : Disk) (s : SshServer Signer)
      → env (codes "SSH_ALLOW_NON_LOOPBACK") ≡ none
      → (start_server net fs parse_private_key sys env flags host d).1 ≡ server s
      → (name port : Text) × (number : ℤ) × (split_host_port s.addr ≡ some (name, port))
        × (is_loopback net name ≡ true)
        × (atoi port ≡ some number)
        × (pos 1 ≤ℤ number)
        × (number ≤ℤ pos 65535)
        × HasLimits s.config
  unfolding start_server
  start_server-local sys env flags host d s unset e =
      let c = apply_flags flags (load_config sys env) in
      let k = new_server-config c host d s e in
      let (name, port, number, a) = validate-IsAcceptable net c k.0 in
      (
        name,
        port,
        number,
        ap split_host_port k.2 ∙ a.splits,
        local-host c name port number a (unset-local sys env flags unset),
        a.numeral,
        a.port_low,
        a.port_high,
        subst HasLimits (sym k.1) (a.absolute, a.sessions, a.idle),
      )
