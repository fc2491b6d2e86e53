-- ===== src/Ssh/Handler/Trace.antt =====
-- In which order a session's handler does what it does.
use workspace_websocket_prox.Base.{
  ℕ, ◌≡◌, refl, Bool, true, false, Option, none, some, List, [], ◌∷◌, ◌++◌, arith, inl, inr,
  Option-cases, Bool-cases,
}
use workspace_websocket_prox.Base.Int.{ℤ}
use workspace_websocket_prox.Ssh.Shell.{Cmd}
use workspace_websocket_prox.Base.Text.{Text}
use workspace_websocket_prox.Ssh.Exit.{launch_code, session_code}
use workspace_websocket_prox.Ssh.Handler.{
  Pty, Event, says, sends_exit, starts, watches, unwatches, resizes, watches_windows,
  unwatches_windows, copies_output, closes_terminal, waits, releases, Answers, finish, run_with_pty,
  run_without_pty, handle_session, launch,
}

-- The exit statuses that the client is sent.
unfoldable pub exits : List Event → List ℤ
exits [] = []
exits (sends_exit c ∷ es) = c ∷ exits es
exits (_ ∷ es) = exits es

-- What a handler holds: its slot, a child that was not waited for, the watcher of its client, an
-- open terminal, the watcher of the terminal's size.
pub record Held : Type 0 where
  pub slot : Bool
  pub child : Bool
  pub watcher : Bool
  pub terminal : Bool
  pub windows : Bool

abbrev pub idle : Held
idle = record { slot = false; child = false; watcher = false; terminal = false; windows = false }

-- What an event needs, and what is held behind it: a size is set on an open terminal, which is
-- closed when the watcher of its size has ended; the client is watched from the start of the
-- child until behind its end; an exit status is sent when no child is left; the slot goes last.
pub data After : Held → Event → Held → Type 0 where
  say : (h : Held) (t : Text) → After h (says t) h
  exit : (h : Held) (c : ℤ) → h.child ≡ false → After h (sends_exit c) h
  start :
      (h : Held) (terminal : Bool) (c : Cmd)
      → h.child ≡ false
      → After h (starts terminal c) (record h { child = true; terminal = terminal })
  watch : (h : Held) → h.child ≡ true → After h watches (record h { watcher = true })
  unwatch : (h : Held) → h.child ≡ false → After h unwatches (record h { watcher = false })
  resize :
      (h : Held) (rows cols : ℕ)
      → h.terminal ≡ true
      → h.windows ≡ false
      → After h (resizes rows cols) h
  watch_windows :
      (h : Held) → h.terminal ≡ true → After h watches_windows (record h { windows = true })
  unwatch_windows : (h : Held) → After h unwatches_windows (record h { windows = false })
  copy : (h : Held) → h.terminal ≡ true → After h copies_output h
  close :
      (h : Held)
      → h.terminal ≡ true
      → h.windows ≡ false
      → After h closes_terminal (record h { terminal = false })
  wait :
      (h : Held)
      → h.child ≡ true
      → h.watcher ≡ true
      → h.terminal ≡ false
      → After h waits (record h { child = false })
  release : After (record idle { slot = true }) releases idle

-- A whole sequence.
pub data Follows : Held → List Event → Held → Type 0 where
  here : {h : Held} → Follows h [] h
  next :
      {g h k : Held} {e : Event} {es : List Event}
      → After g e h
      → Follows h es k
      → Follows g (e ∷ es) k

abbrev pub holding : Bool → Held
holding acquired = record idle { slot = acquired }

terminal-Follows :
    (p : Pty) (a : Answers) (cmd : Cmd)
    → Follows (holding true) (run_with_pty p a cmd ++ releases ∷ []) idle
unfolding run_with_pty finish
terminal-Follows p a cmd = elim (Option-cases (a.start_error)) [
  | inl n ↦ rw n (
      next (start _ _ _ refl) (
        next (watch _ refl) (
          next (resize _ _ _ refl refl) (
            next (watch_windows _ refl) (
              next (copy _ refl) (
                next (unwatch_windows _) (
                  next (close _ refl refl) (
                    next (wait _ refl refl refl)
                      (next (exit _ _ refl) (next (unwatch _ refl) (next release here)))))))))))
  | inr (e, s) ↦ rw s (next (say _ _) (next (exit _ _ refl) (next release here)))
]

plain-Follows :
    (a : Answers) (cmd : Cmd) → Follows (holding true) (run_without_pty a cmd ++ releases ∷ []) idle
unfolding run_without_pty finish
plain-Follows a cmd = elim (Bool-cases (a.stdin_error)) [
  | inl n ↦ rw n (next (exit _ _ refl) (next release here))
  | inr n ↦ rw n (elim (Option-cases (a.start_error)) [
    | inl s ↦ rw s (
        next (start _ _ _ refl) (
          next (watch _ refl) (
            next (wait _ refl refl refl)
              (next (exit _ _ refl) (next (unwatch _ refl) (next release here))))))
    | inr (e, s) ↦ rw s (next (say _ _) (next (exit _ _ refl) (next release here)))
  ])
]

handle_session-Follows :
    (acquired : Bool) (pty : Option Pty) (a : Answers) (cmd : Cmd)
    → Follows (holding acquired) (handle_session acquired pty a cmd) idle
unfolding handle_session
handle_session-Follows true (some p) a cmd = terminal-Follows p a cmd
handle_session-Follows true none a cmd = plain-Follows a cmd
handle_session-Follows false pty a cmd = next (say _ _) (next (exit _ _ refl) here)

exits-handle_session :
    (acquired : Bool) (pty : Option Pty) (a : Answers) (cmd : Cmd)
    → exits (handle_session acquired pty a cmd) ≡ session_code acquired (launch pty a) ∷ []
unfolding handle_session session_code launch_code launch run_with_pty run_without_pty exits finish
exits-handle_session acquired pty a cmd = ground arith

-- On every path the handler keeps to that order, so that it ends with its terminal closed, its
-- child waited for, its watchers stopped and its slot given back, if it had got one; and the client
-- is sent exactly one exit status, that of the outcome.
pub handle_session-IsOrderly :
    (acquired : Bool) (pty : Option Pty) (a : Answers) (cmd : Cmd)
    → Follows (holding acquired) (handle_session acquired pty a cmd) idle
      × (exits (handle_session acquired pty a cmd) ≡ session_code acquired (launch pty a) ∷ [])
handle_session-IsOrderly acquired pty a cmd =
    (handle_session-Follows acquired pty a cmd, exits-handle_session acquired pty a cmd)
