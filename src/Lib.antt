-- ===== src/Lib.antt =====
-- Remote access to a workspace: a WebSocket proxy (cmd/ws-proxy, internal/proxy) that carries the
-- bytes of a client to a TCP target, and an SSH server (cmd/remote-access-server,
-- internal/sshserver) in the workspace, which is that target. This library models the Go code of
-- both programs that decides something, and proves what the parts rely on.
--
-- The proxy reads its configuration once (Config), gives each request a slot or a refusal (Slots,
-- Connections), and runs a session for each slot (Session) whose bridge (Bridge) copies bytes both
-- ways; beside that a prober asks the target for its greeting (Health). All of them write the
-- collectors of Metrics. The SSH server validates its configuration (Config), loads or creates its
-- host key (HostKey, Startup), limits its sessions (Sessions), starts a command with the environment
-- of the session (Shell, Handler), ends it when its client leaves (Process, Exit), and serves reverse
-- forwards whose policy is that of Loopback (Forward) by relaying their connections (Relay).
--
-- Files, and the Go code that each is about:
--   Base             numbers, lists, texts, dictionaries, interleaved threads, and machines nested in
--                    them, that all use
--   Proxy/Config     internal/proxy/config.go: LoadConfig, getEnv and its kin, TargetAddr; the two
--                    tickers of session.go and targethealth.go that take its durations
--   Proxy/Metrics    internal/proxy/metrics.go: the collectors as numbers
--   Proxy/Slots      internal/proxy/session.go: SessionManager
--   Proxy/Connections  internal/proxy/server.go: handleWebSocket, any number of them at once; its
--                    Semaphore is what the limit promises, with no counter and no loop
--   Proxy/Served     internal/proxy/server.go: handleWebSocket with the session that each one runs
--   Proxy/Session    internal/proxy/session.go: Session.Run and pingLoop
--   Proxy/Keepalive  internal/proxy/session.go: the read deadline, the pong handler and the pings, in
--                    time
--   Proxy/Bridge     internal/proxy/bridge.go: copyWSToTCP, copyTCPToWS and Bridge.Run
--   Proxy/Health     internal/proxy/targethealth.go; probeTarget, handleTargetHealth of server.go
--   Proxy/Writes     internal/proxy/bridge.go: WriteMessage and WriteControl, which share a mutex,
--                    and copyTCPToWS among their callers
--   Proxy/Serving    cmd/ws-proxy/main.go; ListenAndServe, Shutdown and handleHealth of
--                    internal/proxy/server.go
--   Proxy/Pages      internal/proxy/server.go: the page of handleTargetHealth and its messages
--   Proxy/Site       internal/proxy/server.go: NewServer's routes and the requests that they take, with
--                    the handlers, the sessions and the prober
--   Proxy/HealthCheck  cmd/ws-proxy/main.go: the health check mode
--   Ssh/Loopback     internal/sshserver/config.go: isLoopback
--   Ssh/Config       internal/sshserver/config.go: LoadConfig, validate, the ephemeral-path check
--   Ssh/HostKey      internal/sshserver/hostkey.go
--   Ssh/Sessions     internal/sshserver/server.go: acquireSession and releaseSession
--   Ssh/Shell        internal/sshserver/shell.go and the command that handleSession assembles
--   Ssh/Exit         internal/sshserver/server.go: exitCode and the exit statuses
--   Ssh/Process      internal/sshserver/server.go: sessionCmd, terminateOnDisconnect, finish
--   Ssh/Window       internal/sshserver/server.go: watchWindowSize and the teardown of runWithPty
--   Ssh/Handler      internal/sshserver/server.go: handleSession, runWithPty, runWithoutPty
--   Ssh/Served       internal/sshserver/server.go: handleSession in its slot, with the session of the
--                    command that each one runs
--   Ssh/Startup      cmd/remote-access-server/main.go; New and Shutdown of
--                    internal/sshserver/server.go
--   Ssh/Relay        internal/sshserver/forward.go: splitAddr and relay
--   Ssh/Accept       internal/sshserver/forward.go: acceptLoop, with all the relays that it starts
--   Ssh/Forward      internal/sshserver/forward.go; allowReverseForward, allowLocalForward
--   Pairing          both main functions: whether the proxy dials where the SSH server listens
--
-- How the code is read:
--   * A string is the list of its bytes. Go's int is an integer without bound, an int32 wraps
--     around. A time.Duration is a number of nanoseconds.
--   * Code that runs in several goroutines is a step function: one step is one access to shared
--     state or one call that blocks, and a theorem quantifies over all lists of steps. What a call
--     of the network, the operating system or a library answers is part of the step.
--   * net.ParseIP and IP.IsLoopback, time.ParseDuration, strings.TrimSpace, os.Stat, filepath, the
--     order of a map's iteration, websocket.IsCloseError, fmt's %q, Time.Format, http.ServeMux, and
--     the making, the encoding and the parser of a private key are parameters; where a theorem needs
--     what they document, that is a named hypothesis (IsNet, IsFiles, IsWriter, IsFmt, IsMux,
--     IsKeyParser and others).
--   * The copies of a command's output, in runWithPty and in exec.Cmd.Wait, block until no process
--     holds the terminal or the pipe; that such processes end is a step of its own.
--   * A crash loses what was not flushed: a file holds arbitrary bytes, a rename may be undone.
--
-- Loops: the digits of `itoa` have fuel one above the number; Acquire's loop has fuel, and one
-- round is enough when no other thread runs; the walk of statNearestAncestor has as much fuel as
-- the path has bytes, and one more; writeHostKeyAtomically makes at most eight calls. All other
-- loops are recursion on lists.
--
-- Not modelled: logging; the text of errors but those of a probe; the page of the metrics, the
-- WebSocket upgrade, SFTP and the SSH protocol, which are libraries; the copy of a client's input to
-- its command, for which nothing waits; the revalidator, which does nothing yet.
mod Base
pub mod Proxy
pub mod Ssh
pub mod Pairing
