-- ===== src/Ssh/Loopback.antt =====
-- internal/sshserver/config.go, isLoopback. IP parsing is package net's: a parameter.
use workspace_websocket_prox.Base.{◌≡◌, Bool, true, false, Option, none, some, [], ite}
use workspace_websocket_prox.Base.Text.{Text, codes, text_eq}

-- `net.ParseIP` and `IP.IsLoopback`.
pub record Net : Type 1 where
  pub Ip : Type 0
  pub parse_ip : Text → Option Ip
  pub ip_is_loopback : Ip → Bool

-- What package net documents of the addresses that the program names.
pub record IsNet (net : Net) : Type 0 where
  pub loopback_ipv4 :
      (ip : net.Ip) × (net.parse_ip (codes "127.0.0.1") ≡ some ip) × (net.ip_is_loopback ip ≡ true)
  pub any_ipv4 :
      (ip : net.Ip) × (net.parse_ip (codes "0.0.0.0") ≡ some ip) × (net.ip_is_loopback ip ≡ false)
  pub any_ipv6 :
      (ip : net.Ip) × (net.parse_ip (codes "::") ≡ some ip) × (net.ip_is_loopback ip ≡ false)

abbrev pub loopback_ipv4 : Text
loopback_ipv4 = codes "127.0.0.1"

abbrev pub localhost_host : Text
localhost_host = codes "localhost"

module _ (net : Net) where
  abbrev ip_test : Option net.Ip → Bool
  ip_test none = false
  ip_test (some ip) = net.ip_is_loopback ip

  unfoldable pub is_loopback : Text → Bool
  is_loopback host = ite (text_eq host []) false (
      ite (text_eq host (codes "*")) false
        (ite (text_eq host localhost_host) true (ip_test (net.parse_ip host))))
