-- ===== src/Pairing/Examples.antt =====
-- The SSH server of Startup's example, at port 2200, and a proxy told of that port.
use workspace_websocket_prox.Base.{◌≡◌, refl, inr, Option, none, some, arith, ite}
use workspace_websocket_prox.Base.Int.{ℤ}
use workspace_websocket_prox.Base.Text.{Text, codes, text_eq, itoa}
use workspace_websocket_prox.Proxy.Config.{Env, target_addr, read_config}
use workspace_websocket_prox.Ssh.Startup.Examples.{
  loopback_net, files, parse, home, exposed, port_flag, host, disk, started, started_here,
}
use workspace_websocket_prox.Pairing.{ArePaired, target_addr-start_server}

abbrev no_durations : Text → Option ℤ
no_durations s = none

abbrev told : Env
told key = ite (text_eq key (codes "TARGET_PORT")) (some (codes "2200")) none

told-ArePaired : ArePaired told exposed port_flag.port
unfolding text_eq itoa
told-ArePaired = (refl, inr (2199, refl, omega arith, refl))

target_addr-start_server_example : target_addr (read_config no_durations told) ≡ started.addr
target_addr-start_server_example =
    target_addr-start_server loopback_net files parse no_durations told home exposed port_flag host
      disk started told-ArePaired started_here
