-- ===== src/Proxy/Slots.antt =====
-- internal/proxy/session.go: SessionManager, one atomic access at a time, and `Acquire` as a loop.
pub mod Acquire
use workspace_websocket_prox.Base.{
  ℕ, zero, suc, Bool, true, false, Option, none, some, if◌then◌else◌,
}
use workspace_websocket_prox.Base.Int.{ℤ, pos, negsuc, ◌+ℤ◌, leb_ℤ, eqb_ℤ, int32}

-- Both fields are an `int32`.
pub record SessionManager : Type 0 where
  pub max_connections : ℤ
  pub active : ℤ

unfoldable pub new_session_manager : ℤ → SessionManager
new_session_manager n = record { max_connections = int32 n; active = pos 0 }

-- The load at the head of Acquire's loop, with its test: `none` is the return of false.
unfoldable pub load_active : SessionManager → Option ℤ
load_active sm = if leb_ℤ sm.max_connections sm.active then none else some sm.active

-- `CompareAndSwap(current, current+1)`: `none` where another thread has changed the count.
unfoldable pub compare_and_swap : SessionManager → ℤ → Option SessionManager
compare_and_swap sm current =
    if eqb_ℤ sm.active current then some (record sm { active = int32 (current +ℤ pos 1) }) else none

-- Acquire with no other thread running; `none` is fuel run out.
unfoldable pub acquire : ℕ → SessionManager → Option (Bool × SessionManager)
acquire zero sm = none
acquire (suc fuel) sm = elim (load_active sm) [
  | none ↦ some (false, sm)
  | some current ↦ elim (compare_and_swap sm current) [
    | none ↦ acquire fuel sm
    | some sm' ↦ some (true, sm')
  ]
]

unfoldable pub release : SessionManager → SessionManager
release sm = record sm { active = int32 (sm.active +ℤ negsuc 0) }

unfoldable pub active_count : SessionManager → ℤ
active_count sm = sm.active
