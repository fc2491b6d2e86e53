-- ===== src/Proxy/Connections/Semaphore.antt =====
-- What the limit on connections promises, with no counter and no loop: a counting semaphore over
-- requests, each of which waits, is inside, was refused or has left.
use workspace_websocket_prox.Base.{
  ℕ, ◌+◌, ◌≤◌, ◌<◌, ◌≡◌, some, List, arith, get_elem?, set, tally, tally-set,
}

pub data Guest : Type 0 where
  waiting inside refused left : Guest

abbrev pub is_inside : Guest → ℕ
is_inside inside = 1
is_inside _ = 0

-- A guest may move when `n` of `cap` places are taken: it enters only where a place is free, and is
-- refused only where none is.
pub data Move (cap n : ℕ) : Guest → Guest → Type 0 where
  stay : (g : Guest) → Move cap n g g
  enter : n < cap → Move cap n waiting inside
  refuse : n ≡ cap → Move cap n waiting refused
  leave : Move cap n inside left

pub data Step (cap : ℕ) : List Guest → List Guest → Type 0 where
  idle : (gs : List Guest) → Step cap gs gs
  move :
      (gs : List Guest) (i : ℕ) (g g' : Guest)
      → get_elem? gs i ≡ some g
      → Move cap (tally is_inside gs) g g'
      → Step cap gs (set gs i g')

pub data Reach (cap : ℕ) (gs : List Guest) : List Guest → Type 0 where
  here : Reach cap gs gs
  next : {hs ks : List Guest} → Reach cap gs hs → Step cap hs ks → Reach cap gs ks

Move-within :
    {cap n : ℕ} {g g' : Guest} (m : ℕ)
    → Move cap n g g'
    → m + is_inside g ≡ n + is_inside g'
    → n ≤ cap
    → m ≤ cap
Move-within m (stay g) e h = omega arith
Move-within m (enter free) e h = omega arith
Move-within m (refuse full) e h = omega arith
Move-within m leave e h = omega arith

Step-within :
    {cap : ℕ} {gs hs : List Guest}
    → Step cap gs hs
    → tally is_inside gs ≤ cap
    → tally is_inside hs ≤ cap
Step-within (idle gs) h = h
Step-within (move gs i g g' e m) h =
    Move-within (tally is_inside (set gs i g')) m (tally-set is_inside gs i g g' e) h

-- The semaphore never lets more guests in than it has places.
pub Reach-within :
    {cap : ℕ} {gs hs : List Guest}
    → Reach cap gs hs
    → tally is_inside gs ≤ cap
    → tally is_inside hs ≤ cap
Reach-within here h = h
Reach-within (next r s) h = Step-within s (Reach-within r h)
