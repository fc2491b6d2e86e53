-- ===== src/Ssh/Config/Examples.antt =====
-- The default configuration of a user with a home directory, and a file tree with /home on a
-- volume of its own.
use workspace_websocket_prox.Base.{
  ◌≡◌, ◌↔◌, ◌≢◌, ◌⊎◌, inl, inr, refl, Bool, true, false, none, some, [], ◌∷◌, ◌++◌, ◌<◌, arith, ite,
  length,
}
use workspace_websocket_prox.Base.Int.{ℤ, pos}
use workspace_websocket_prox.Base.Text.{
  Text, codes, text_eq, strip_prefix, cut_last, has_byte, itoa,
}
use workspace_websocket_prox.Base.Text.Parse.{split_host_port, atoi}
use workspace_websocket_prox.Ssh.Loopback.{Net, IsNet, is_loopback}
use workspace_websocket_prox.Ssh.Forward.{any_bind_addresses}
use workspace_websocket_prox.Ssh.Config.{Config, Env, System, load_config, validate, is_abs}
use workspace_websocket_prox.Ssh.Config.Validate.{IsAcceptable, validate_lem, validate-any}
use workspace_websocket_prox.Ssh.Config.Device.{
  Files, FileInfo, IsFiles, stat_nearest_ancestor, stat_nearest_ancestor_total, Nearest,
}

abbrev loopback_net : Net
loopback_net = record {
  Ip = Bool;
  parse_ip = λ a. ite (text_eq a (codes "127.0.0.1")) (some true) (
      ite (text_eq a (codes "0.0.0.0")) (some false)
        (ite (text_eq a (codes "::")) (some false) none));
  ip_is_loopback = λ b. b;
}

loopback_net-IsNet : IsNet loopback_net
unfolding text_eq
loopback_net-IsNet = record {
  loopback_ipv4 = (true, refl, refl);
  any_ipv4 = (false, refl, refl);
  any_ipv6 = (false, refl, refl);
}

abbrev workspace : System
workspace = record {
  user_home_dir = some (codes "/home/jovyan");
  current_user = none;
  join = λ a b c. a ++ b'/' ∷ (b ++ b'/' ∷ c);
  parse_duration = λ s. none;
}

abbrev empty_env : Env
empty_env key = none

abbrev defaults : Config
defaults = record {
  listen_addr = codes "127.0.0.1:2222";
  host_key_path = codes "/home/jovyan/.ssh/ssh_host_ed25519_key";
  idle_timeout = pos 43200000000000;
  max_sessions = pos 10;
  login_shell = false;
  allow_non_loopback = false;
}

load_config-defaults : load_config workspace empty_env ≡ defaults
unfolding load_config text_eq itoa
load_config-defaults = refl

defaults_accepted : validate loopback_net defaults ≡ none
unfolding validate split_host_port cut_last has_byte atoi text_eq strip_prefix is_loopback
defaults_accepted = refl

defaults-IsAcceptable :
    IsAcceptable loopback_net defaults (codes "127.0.0.1") (codes "2222") (pos 2222)
unfolding split_host_port cut_last has_byte atoi text_eq strip_prefix is_loopback
defaults-IsAcceptable = record {
  splits = refl;
  numeral = refl;
  port_low = omega arith;
  port_high = omega arith;
  absolute = refl;
  sessions = omega arith;
  idle = omega arith;
  local = inr refl;
}

defaults_accepted_again : validate loopback_net defaults ≡ none
defaults_accepted_again =
    (validate_lem loopback_net defaults).1
      (codes "127.0.0.1", codes "2222", pos 2222, defaults-IsAcceptable)

validate_lem_example :
    (validate loopback_net defaults ≡ none)
    ↔ ((host port : Text) × (number : ℤ) × IsAcceptable loopback_net defaults host port number)
validate_lem_example = validate_lem loopback_net defaults

abbrev exposed : Config
exposed = record defaults { listen_addr = codes ":2222" }

exposed_refused : validate loopback_net exposed ≢ none
unfolding split_host_port cut_last has_byte text_eq any_bind_addresses
exposed_refused =
    validate-any loopback_net loopback_net-IsNet exposed [] (codes "2222") refl refl refl

-- Only the root exists.
abbrev bare : Files
bare = record {
  stat = λ p. ite (text_eq p (codes "/")) (some (record { device = some 1 })) none;
  dir = λ p. codes "/";
}

bare_shorter : (p : Text) → is_abs p ≡ true → (codes "/" ≡ p) ⊎ (length (codes "/") < length p)
unfolding strip_prefix
bare_shorter [] h = cc
bare_shorter (c ∷ []) h = inl (ground arith)
bare_shorter (c ∷ d ∷ p) h = inr (omega arith)

bare-IsFiles : IsFiles bare
unfolding strip_prefix
bare-IsFiles = record { dir_abs = λ p a. refl; dir_shorter = bare_shorter; dir_fixed = λ p a e. cc }

stat_nearest_ancestor_total_example :
    (info : FileInfo) × (stat_nearest_ancestor bare 10 (codes "/home/.s") ≡ some (some info))
    × Nearest bare info (codes "/home/.s")
unfolding text_eq strip_prefix
stat_nearest_ancestor_total_example =
    stat_nearest_ancestor_total bare bare-IsFiles {root = record { device = some 1 }} refl 10
      (codes "/home/.s") refl (omega arith)
