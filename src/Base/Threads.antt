-- ===== src/Base/Threads.antt =====
-- Threads over one shared state, interleaved: a schedule names the thread that makes the next
-- access, with the answer that its environment gives.
use mathlib.Core.Path.{◌≡◌, refl, sym, ap, ◌∙◌}
use mathlib.Core.Logic.{inl, inr}
use mathlib.Core.List.{List, [], ◌∷◌, ◌++◌, map}
use mathlib.Core.Option.{none, some}
use Prim.Native.Nat.{ℕ}
use workspace_websocket_prox.Base.Tests.{Option-cases}
use workspace_websocket_prox.Base.Lists.{
  get_elem?, set, length, length-set, set-set, set-get_elem?, get_elem?-set_self,
}

pub record System (S P : Type 0) : Type 0 where
  pub shared : S
  pub threads : List P

module _ {S P A : Type 0} (access : A → S → P → S × P) where
  -- Thread `i` makes its next access; an index of no thread changes nothing.
  unfoldable pub step : System S P → ℕ × A → System S P
  step s (i, a) = elim (get_elem? s.threads i) [
    | none ↦ s
    | some p ↦
        let (shared, p') = access a s.shared p in
        record { shared = shared; threads = set s.threads i p' }
  ]

  unfoldable pub run : System S P → List (ℕ × A) → System S P
  unfolding step
  run s [] = s
  run s (c ∷ cs) = run (step s c) cs

  abbrev pub accessed : System S P → ℕ → A → P → System S P
  accessed s i a p = record {
    shared = (access a s.shared p).0;
    threads = set s.threads i (access a s.shared p).1;
  }

  pub step_inv :
      (I : System S P → Type 0)
      → ((s : System S P) (i : ℕ) (a : A) (p : P)
          → get_elem? s.threads i ≡ some p
          → I s
          → I (accessed s i a p))
      → (s : System S P) (c : ℕ × A) → I s
      → I (step s c)
  unfolding step
  step_inv I keep s (i, a) h = elim (Option-cases (get_elem? s.threads i)) [
    | inl e ↦ rw (e, step) h
    | inr (p, e) ↦ rw (e, step) (keep s i a p e h)
  ]

  -- What every access keeps, every schedule keeps.
  pub run_inv :
      (I : System S P → Type 0)
      → ((s : System S P) (i : ℕ) (a : A) (p : P)
          → get_elem? s.threads i ≡ some p
          → I s
          → I (accessed s i a p))
      → (s : System S P) (cs : List (ℕ × A)) → I s
      → I (run s cs)
  unfolding run
  run_inv I keep s [] h = h
  run_inv I keep s (c ∷ cs) h = run_inv I keep (step s c) cs (step_inv I keep s c h)

  pub length-run :
      (s : System S P) (cs : List (ℕ × A)) → length (run s cs).threads ≡ length s.threads
  length-run s cs =
      run_inv (λ t. length t.threads ≡ length s.threads)
        (λ t i a p e h. length-set t.threads i _ ∙ h) s cs refl

  pub step_lem :
      (t : System S P) (i : ℕ) (a : A) (p : P)
      → get_elem? t.threads i ≡ some p
      → step t (i, a) ≡ accessed t i a p
  unfolding step
  step_lem t i a p g = rw (g, step)

  -- A schedule with one more access.
  pub run-accessed :
      (s t : System S P) (cs : List (ℕ × A)) (i : ℕ) (a : A) (p : P)
      → t ≡ run s cs
      → get_elem? t.threads i ≡ some p
      → accessed t i a p ≡ run s (cs ++ (i, a) ∷ [])
  unfolding run
  run-accessed s t [] i a p e g = sym (step_lem t i a p g) ∙ ap (λ u. step u (i, a)) e
  run-accessed s t (c ∷ cs) i a p e g = run-accessed (step s c) t cs i a p e g

  -- Some accesses of one thread, with no other in between.
  unfoldable pub solo : List A → S → P → S × P
  solo [] s p = (s, p)
  solo (a ∷ as') s p = let (s', p') = access a s p in solo as' s' p'

  pub solo_lem :
      (s : System S P) (i : ℕ) (as' : List A) (p : P)
      → get_elem? s.threads i ≡ some p
      → run s (map (λ a. (i, a)) as') ≡ record {
        shared = (solo as' s.shared p).0;
        threads = set s.threads i (solo as' s.shared p).1;
      }
  unfolding run solo
  solo_lem s i [] p g =
      ap (λ l. record { shared = s.shared; threads = l }) (sym (set-get_elem? s.threads i g))
  solo_lem s i (a ∷ as') p g =
      let (s', p') = access a s.shared p in
      ap (λ u. run u (map (λ a. (i, a)) as')) (step_lem s i a p g)
      ∙ solo_lem (accessed s i a p) i as' p' (get_elem?-set_self s.threads i p' g)
      ∙ ap (λ l. record { shared = (solo as' s' p').0; threads = l })
          (set-set s.threads i p' (solo as' s' p').1)
