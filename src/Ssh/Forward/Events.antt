-- ===== src/Ssh/Forward/Events.antt =====
-- What happens to the forward handler, one event at a time, in any order.
use workspace_websocket_prox.Base.{ℕ, ◌≡◌, ◌≢◌, Bool, true, Option, some, List, [], ◌∷◌}
use workspace_websocket_prox.Base.Text.{Text}
use workspace_websocket_prox.Ssh.Forward.{
  RemoteForwardRequest, Listener, Handler, Callback, bind_host, handle_ssh_request, watch,
  accept_failed, put,
}

-- A global request on a connection, with the kernel's answer to net.Listen; the end of a connection;
-- the wake-up of a watcher; a failing Accept.
pub data Event : Type 0 where
  request :
      (conn : ℕ) (live : Bool) (type : Text) (payload : Option RemoteForwardRequest)
      (listen : Option ℕ)
      → Event
  disconnect : (conn : ℕ) → Event
  wake : (id : ℕ) → Event
  accept_error : (id : ℕ) → Event

unfoldable pub step : Callback → Handler → Event → Handler
step callback h (request conn live type payload listen) =
    (handle_ssh_request callback conn live type payload listen h).0
step callback h (disconnect conn) = record h { ended = put h.ended conn true }
step callback h (wake id) = watch id h
step callback h (accept_error id) = accept_failed id h

unfoldable pub run : Callback → Handler → List Event → Handler
run callback h [] = h
run callback h (e ∷ es) = run callback (step callback h e) es

-- What the kernel promises. net.Listen binds no port that an open socket of the same host holds.
abbrev pub IsFreePort : Handler → Option RemoteForwardRequest → Option ℕ → Type 0
IsFreePort h (some payload) (some port) =
    (id : ℕ) (l : Listener)
    → h.sockets id ≡ some l
    → l.host ≡ bind_host payload.bind_addr
    → l.port ≢ port
IsFreePort h _ _ = Unit {0}

-- Accept fails on a closed listener only.
abbrev pub IsQuiet : Handler → Event → Type 0
IsQuiet h (request conn live type payload listen) = IsFreePort h payload listen
IsQuiet h (accept_error id) = h.sockets id ≡ Option.none
IsQuiet h _ = Unit {0}

abbrev pub QuietRun : Callback → Handler → List Event → Type 0
QuietRun callback h [] = Unit {0}
QuietRun callback h (e ∷ es) = IsQuiet h e × QuietRun callback (step callback h e) es
