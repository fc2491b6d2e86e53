-- ===== src/Ssh.antt =====
-- The SSH server, internal/sshserver.
pub mod Loopback
pub mod Exit
pub mod Process
pub mod Shell
pub mod Config
pub mod Sessions
pub mod Forward
pub mod HostKey
pub mod Window
pub mod Relay
pub mod Accept
pub mod Startup
pub mod Handler
pub mod Served
