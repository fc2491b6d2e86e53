-- ===== src/Proxy/Slots/Acquire.antt =====
-- internal/proxy/session.go, Acquire and Release with no other thread running.
use workspace_websocket_prox.Base.{
  ℕ, suc, ◌+◌, ◌^◌, ◌<◌, ◌≡◌, true, false, some, arith, if◌then◌else◌,
}
use workspace_websocket_prox.Base.Int.{ℤ, pos, pos_part, leb_ℤ, int32-succ, int32-pred, eqb_ℤ-refl}
use workspace_websocket_prox.Proxy.Slots.{
  SessionManager, acquire, release, load_active, compare_and_swap,
}

abbrev pub slots : ℤ → ℕ → SessionManager
slots max k = record { max_connections = max; active = pos k }

-- One round of the loop decides, whatever the limit: false and no change at capacity, and
-- otherwise true and one more slot.
pub acquire_lem :
    (fuel k : ℕ) (max : ℤ)
    → pos_part max < 2 ^ 31
    → acquire (suc fuel) (slots max k)
      ≡ (if leb_ℤ max (pos k) then some (false, slots max k) else some (true, slots max (k + 1)))
unfolding acquire load_active compare_and_swap
acquire_lem fuel k max small = ground (arith, int32-succ k, eqb_ℤ-refl (pos k))

-- Release undoes an Acquire that returned true.
pub release-acquire :
    (fuel k : ℕ) (max : ℤ) {sm : SessionManager}
    → pos_part max < 2 ^ 31
    → acquire (suc fuel) (slots max k) ≡ some (true, sm)
    → release sm ≡ slots max k
unfolding release
release-acquire fuel k max small e =
    ground (arith, acquire_lem fuel k max small, int32-pred (k + 1))
