-- ===== src/Ssh/HostKey/Restart.antt =====
-- The key of the first start, and of the next one.
use workspace_websocket_prox.Base.{
  ℕ, suc, ◌≡◌, refl, sym, subst, Bool, true, false, Option, none, some, List, [], ◌∷◌, arith,
  length, ◌≤◌,
}
use workspace_websocket_prox.Base.Text.{Text}
use workspace_websocket_prox.Ssh.HostKey.{
  File, Disk, Stage, creating, chmodding, writing, syncing, renaming, closing, removing,
  syncing_dir, done, Answer, write_step, write_run, not_exist, read_file, KeyResult, loaded,
  generated, parsed, written, unreadable, not_parsed, load_or_create_host_key,
}
use workspace_websocket_prox.Ssh.HostKey.Crash.{
  IsNew, IsNew-Safe, IsFlushed, StageAgrees, write_run-Safe,
}

-- How many calls are left at most.
abbrev pub left : Stage → ℕ
left creating = 8
left chmodding = 7
left writing = 6
left syncing = 5
left (closing ok) = 4
left renaming = 3
left removing = 1
left syncing_dir = 1
left (done ok) = 0

pub write_step-left :
    (contents : Text) (stage : Stage) (a : Answer) (d : Disk) (n : ℕ)
    → left stage ≤ suc n
    → left (write_step contents stage a d).1 ≤ n
unfolding write_step
write_step-left contents stage a d n h = ground arith

abbrev pub IsDone : Stage → Type 0
IsDone (done ok) = Unit {0}
IsDone _ = ⊥

IsDone-left : (stage : Stage) → left stage ≤ 0 → IsDone stage
IsDone-left stage h = ground arith

write_run-left :
    (contents : Text) (stage : Stage) (as' : List Answer) (d : Disk)
    → left stage ≤ length as'
    → IsDone (write_run contents stage as' d).1
unfolding write_run
write_run-left contents stage [] d h = IsDone-left stage h
write_run-left contents stage (a ∷ as') d h =
    write_run-left contents (write_step contents stage a d).1 as' (write_step contents stage a d).0
      (write_step-left contents stage a d (length as') h)

-- writeHostKeyAtomically returns after at most eight calls, however they answer.
pub write_run-IsDone :
    (contents : Text) (as' : List Answer) (d : Disk)
    → 8 ≤ length as'
    → IsDone (write_run contents creating as' d).1
write_run-IsDone contents as' d h = write_run-left contents creating as' d h

module _ {Signer : Type 0} (parse_private_key : Text → Option Signer) where
  abbrev Loads : KeyResult Signer → KeyResult Signer → Type 0
  Loads (generated k) r = r ≡ loaded k
  Loads _ r = Unit {0}

  same :
      (o : Option Signer)
      → Loads
          (elim o [ none ↦ not_parsed | some s ↦ generated s ])
          (elim o [ none ↦ unreadable | some s ↦ loaded s ])
  same none = tt
  same (some s) = refl

  flushed_lem :
      (pem : Text) (p : Option File) (gen : Option Text) (mkdir : Bool) (bs : List Answer)
      (d : Disk)
      → IsFlushed pem p
      → Loads
          (parsed parse_private_key not_parsed generated pem)
          (load_or_create_host_key parse_private_key (read_file p) gen mkdir bs d).1
  unfolding load_or_create_host_key
  flushed_lem pem none gen mkdir bs d h = absurd h
  flushed_lem pem (some f) gen mkdir bs d h =
      subst
        (λ t.
          Loads (parsed parse_private_key not_parsed generated pem)
            (parsed parse_private_key unreadable loaded t))
        (sym h.0) (same (parse_private_key pem))

  written_lem :
      (pem : Text) (d : Disk) (stage : Stage) (gen : Option Text) (mkdir : Bool) (bs : List Answer)
      → StageAgrees pem stage d
      → Loads
          (written parse_private_key pem (d, stage))
          (load_or_create_host_key parse_private_key (read_file d.path) gen mkdir bs d).1
  written_lem pem d (done true) gen mkdir bs h = flushed_lem pem d.path gen mkdir bs d h
  written_lem pem d (done false) gen mkdir bs h = tt
  written_lem pem d creating gen mkdir bs h = tt
  written_lem pem d chmodding gen mkdir bs h = tt
  written_lem pem d writing gen mkdir bs h = tt
  written_lem pem d syncing gen mkdir bs h = tt
  written_lem pem d (closing ok) gen mkdir bs h = tt
  written_lem pem d renaming gen mkdir bs h = tt
  written_lem pem d removing gen mkdir bs h = tt
  written_lem pem d syncing_dir gen mkdir bs h = tt

  Loads_lem :
      (r next : KeyResult Signer) (k : Signer) → Loads r next → r ≡ generated k → next ≡ loaded k
  Loads_lem r next k h e = ground arith

  created_lem :
      (pem : Option Text) (mkdir : Bool) (as' : List Answer) (d : Disk) (gen : Option Text)
      (again : Bool) (bs : List Answer)
      → IsNew d
      → Loads
          (load_or_create_host_key parse_private_key not_exist pem mkdir as' d).1
          (load_or_create_host_key parse_private_key
            (read_file (load_or_create_host_key parse_private_key not_exist pem mkdir as' d).0.path)
            gen
            again
            bs
            (load_or_create_host_key parse_private_key not_exist pem mkdir as' d).0).1
  unfolding load_or_create_host_key
  created_lem none mkdir as' d gen again bs h = tt
  created_lem (some pem) false as' d gen again bs h = tt
  created_lem (some pem) true as' d gen again bs h =
      written_lem pem (write_run pem creating as' d).0 (write_run pem creating as' d).1 gen again bs
        (write_run-Safe pem creating as' d (IsNew-Safe pem d h) tt).1

  -- If the first start finds no file and generates a key, the next start loads the same key and
  -- does not generate another one, whatever its generator and its calls would do.
  pub load_or_create_host_key-twice :
      (pem : Option Text) (mkdir : Bool) (as' : List Answer) (d : Disk) (gen : Option Text)
      (again : Bool) (bs : List Answer) (k : Signer)
      → IsNew d
      → (load_or_create_host_key parse_private_key not_exist pem mkdir as' d).1 ≡ generated k
      → (load_or_create_host_key parse_private_key
          (read_file (load_or_create_host_key parse_private_key not_exist pem mkdir as' d).0.path)
          gen
          again
          bs
          (load_or_create_host_key parse_private_key not_exist pem mkdir as' d).0).1
        ≡ loaded k
  load_or_create_host_key-twice pem mkdir as' d gen again bs k h e =
      Loads_lem (load_or_create_host_key parse_private_key not_exist pem mkdir as' d).1
        (load_or_create_host_key parse_private_key
          (read_file (load_or_create_host_key parse_private_key not_exist pem mkdir as' d).0.path)
          gen again bs (load_or_create_host_key parse_private_key not_exist pem mkdir as' d).0).1
        k (created_lem pem mkdir as' d gen again bs h) e
