-- ===== src/Base/Nested.antt =====
-- Threads that each host a machine of their own: in one of its stages a thread leaves the shared
-- state alone and steps the machine, until that is over.
use mathlib.Core.Path.{◌≡◌, refl, ap, ap₂, ◌∙◌}
use mathlib.Core.Logic.{◌⊎◌, inl, inr}
use mathlib.Core.Bool.{Bool, true, false}
use mathlib.Core.List.{List, [], ◌∷◌, ◌++◌, map}
use mathlib.Core.Option.{some}
use Prim.Native.Nat.{ℕ, ◌+◌}
use native.Mathlib.Omega.{arith}
use workspace_websocket_prox.Base.Lists.{
  get_elem?, set, map-set, set-get_elem?, get_elem?-map, All, All-set, All-get_elem?, tally,
  tally-set, get_elem?-set_self,
}
use workspace_websocket_prox.Base.Threads
use workspace_websocket_prox.Base.Threads.{System, accessed, run_inv, run-accessed, solo, solo_lem}

pub record Host (P T : Type 0) : Type 0 where
  pub stage : P
  pub session : T

module _ {S P T : Type 0} where
  -- What is seen of the threads without their machines.
  abbrev pub stages : System S (Host P T) → System S P
  stages s = record { shared = s.shared; threads = map (λ h. h.stage) s.threads }

-- `outer` is the step of a thread, `inner` that of its machine, `label` what a turn is to `outer`,
-- and `inside` says where the machine steps.
module _ {S P T A B : Type 0} (outer : B → S → P → S × P) (inner : A → T → T) (label : A → B)
    (inside : P → T → Bool) where
  abbrev pub moved : T → S × P → S × Host P T
  moved t (s, p) = (s, record { stage = p; session = t })

  abbrev pub chosen : Bool → A → S → P → T → S × Host P T
  chosen true a s p t = moved (inner a t) (s, p)
  chosen false a s p t = moved t (outer (label a) s p)

  abbrev pub nested : A → S → Host P T → S × Host P T
  nested a s h = chosen (inside h.stage h.session) a s h.stage h.session

  -- A turn is a step of the thread, or nothing that the others see.
  abbrev Shows : S → P → S × Host P T → Type 0
  Shows s p r =
      ((b : B) × (r.0 ≡ (outer b s p).0) × (r.1.stage ≡ (outer b s p).1))
      ⊎ ((r.0 ≡ s) × (r.1.stage ≡ p))

  chosen-Shows : (b : Bool) (a : A) (s : S) (p : P) (t : T) → Shows s p (chosen b a s p t)
  chosen-Shows true a s p t = inr (refl, refl)
  chosen-Shows false a s p t = inl (label a, refl, refl)

  abbrev system : S → List P → System S P
  system s ps = record { shared = s; threads = ps }

  stages-accessed :
      (s : System S (Host P T)) (i : ℕ) (a : A) (h : Host P T) (x : S) (p : P)
      → (nested a s.shared h).0 ≡ x
      → (nested a s.shared h).1.stage ≡ p
      → stages (accessed nested s i a h) ≡ system x (set (map (λ g. g.stage) s.threads) i p)
  stages-accessed s i a h x p u v = ap₂ system u (
      map-set (λ (g : Host P T). g.stage) s.threads i (nested a s.shared h).1
      ∙ ap (λ q. set (map (λ (g : Host P T). g.stage) s.threads) i q) v)

  -- So an access is an access of a thread without its machine, or none.
  pub stages-access :
      (s : System S (Host P T)) (i : ℕ) (a : A) (h : Host P T)
      → get_elem? s.threads i ≡ some h
      → ((b : B) × (get_elem? (stages s).threads i ≡ some h.stage)
          × (stages (accessed nested s i a h) ≡ accessed outer (stages s) i b h.stage))
        ⊎ (stages (accessed nested s i a h) ≡ stages s)
  stages-access s i a h e =
      let there = get_elem?-map (λ (g : Host P T). g.stage) s.threads i e in
      elim (chosen-Shows (inside h.stage h.session) a s.shared h.stage h.session) [
        | inl (b, u, v) ↦ inl (b, there, stages-accessed s i a h _ _ u v)
        | inr (u, v) ↦ inr (
            stages-accessed s i a h _ _ u v
            ∙ ap (system s.shared)
                (set-get_elem? (map (λ (g : Host P T). g.stage) s.threads) i there))
      ]

  abbrev Follows : System S P → System S (Host P T) → Type 0
  Follows c s = (cs : List (ℕ × B)) × (stages s ≡ Threads.run outer c cs)

  access-Follows :
      (c : System S P) (s : System S (Host P T)) (i : ℕ) (a : A) (h : Host P T)
      → get_elem? s.threads i ≡ some h
      → Follows c s
      → Follows c (accessed nested s i a h)
  access-Follows c s i a h e (cs, f) = elim (stages-access s i a h e) [
    | inl (b, there, g) ↦
        (cs ++ (i, b) ∷ [], g ∙ run-accessed outer c (stages s) cs i b h.stage f there)
    | inr g ↦ (cs, g ∙ f)
  ]

  -- The threads with their machines do to the shared state what some interleaving does in which
  -- a machine is one step.
  pub stages-run :
      (s : System S (Host P T)) (as' : List (ℕ × A))
      → (cs : List (ℕ × B)) × (stages (Threads.run nested s as') ≡ Threads.run outer (stages s) cs)
  unfolding Threads.run
  stages-run s as' =
      run_inv nested (Follows (stages s)) (access-Follows (stages s)) s as' ([], refl)

  chosen-keeps :
      (Q : T → Type 0)
      → ((a : A) (t : T) → Q t → Q (inner a t))
      → (b : Bool) (a : A) (s : S) (p : P) (t : T) → Q t
      → Q (chosen b a s p t).1.session
  chosen-keeps Q keep true a s p t q = keep a t q
  chosen-keeps Q keep false a s p t q = q

  -- What each step of the machines keeps, they all keep.
  pub run-All :
      (Q : T → Type 0)
      → ((a : A) (t : T) → Q t → Q (inner a t))
      → (s : System S (Host P T)) (as' : List (ℕ × A)) → All (λ h. Q h.session) s.threads
      → All (λ h. Q h.session) (Threads.run nested s as').threads
  run-All Q keep =
      run_inv nested (λ s. All (λ h. Q h.session) s.threads)
        (λ s i a h e all.
          All-set (λ (g : Host P T). Q g.session) s.threads i _ all
            (chosen-keeps Q keep (inside h.stage h.session) a s.shared h.stage h.session
              (All-get_elem? (λ (g : Host P T). Q g.session) s.threads i all e)))

  -- Some steps of a machine alone.
  unfoldable pub turns : List A → T → T
  turns [] t = t
  turns (a ∷ as') t = turns as' (inner a t)

  pub solo-append :
      (as' bs : List A) (s : S) (h : Host P T)
      → solo nested (as' ++ bs) s h ≡ solo nested bs (solo nested as' s h).0 (solo nested as' s h).1
  unfolding solo
  solo-append [] bs s h = refl
  solo-append (a ∷ as') bs s h = let (s', h') = nested a s h in solo-append as' bs s' h'

  -- What turns of one thread alone do to a count.
  pub tally-solo :
      (w : P → ℕ) (s : System S (Host P T)) (i : ℕ) (us : List A) (h : Host P T) (q : P)
      → get_elem? s.threads i ≡ some h
      → (solo nested us s.shared h).1.stage ≡ q
      → let s' = Threads.run nested s (map (λ a. (i, a)) us) in
        (h' : Host P T) × (get_elem? s'.threads i ≡ some h')
        × (h'.stage ≡ q)
        × (tally (λ g. w g.stage) s'.threads + w h.stage ≡ tally (λ g. w g.stage) s.threads + w q)
  tally-solo w s i us h q g done =
      let h' = (solo nested us s.shared h).1 in
      let same = solo_lem nested s i us h g in
      let counts = tally-set (λ (g : Host P T). w g.stage) s.threads i h h' g in
      (
        h',
        ap (λ (u : System S (Host P T)). get_elem? u.threads i) same
            ∙ get_elem?-set_self s.threads i h' g,
        done,
        omega (
          arith,
          counts,
          ap (λ (u : System S (Host P T)). tally (λ g. w g.stage) u.threads) same,
          ap w done,
        ),
      )

  module _ (host : P) (IsLeaving : P → Type 0)
      (outside : (p : P) (t : T) → IsLeaving p → inside p t ≡ false)
      (leaves : (b : B) (s : S) → IsLeaving (outer b s host).1)
      (stays : (b : B) (s : S) (p : P) → IsLeaving p → IsLeaving (outer b s p).1) where
    nested-stays :
        (a : A) (s : S) (h : Host P T) → IsLeaving h.stage → IsLeaving (nested a s h).1.stage
    nested-stays a s h l = rw (outside h.stage h.session l) (stays (label a) s h.stage l)

    pub solo-stays :
        (as' : List A) (s : S) (h : Host P T)
        → IsLeaving h.stage
        → IsLeaving (solo nested as' s h).1.stage
    unfolding solo
    solo-stays [] s h l = l
    solo-stays (a ∷ as') s h l =
        let (s', h') = nested a s h in solo-stays as' s' h' (nested-stays a s h l)

    after :
        (b : Bool) (a last : A) (as' : List A) (s : S) (t : T)
        → (b ≡ true
            → IsLeaving
                (solo nested
                  (as' ++ last ∷ [])
                  s
                  (record { stage = host; session = inner a t })).1.stage)
        → let (s', h') = chosen b a s host t in
          IsLeaving (solo nested (as' ++ last ∷ []) s' h').1.stage
    after true a last as' s t ih = ih refl
    after false a last as' s t ih = solo-stays (as' ++ last ∷ []) _ _ (leaves (label a) s)

    -- A thread leaves its machine with one turn more than brings that to its end.
    pub solo-leaves :
        (as' : List A) (last : A) (s : S) (t : T)
        → inside host (turns as' t) ≡ false
        → IsLeaving
            (solo nested (as' ++ last ∷ []) s (record { stage = host; session = t })).1.stage
    unfolding solo turns
    solo-leaves [] last s t over = rw over (leaves (label last) s)
    solo-leaves (a ∷ as') last s t over =
        after (inside host t) a last as' s t (λ e. solo-leaves as' last s (inner a t) over)
