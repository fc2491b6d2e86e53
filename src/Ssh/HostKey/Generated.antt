-- ===== src/Ssh/HostKey/Generated.antt =====
-- internal/sshserver/hostkey.go, loadOrCreateHostKey with generateHostKeyPEM: what a first start comes
-- to.
use workspace_websocket_prox.Base.{
  ℕ, zero, suc, ◌≡◌, ◌∙◌, ◌≤◌, refl, ap, Bool, true, false, ◌&&◌, Option, none, some, List, [], ◌∷◌,
  arith, length,
}
use workspace_websocket_prox.Ssh.HostKey.Restart.{left, write_step-left}
use workspace_websocket_prox.Base.Text.{Text, codes}
use workspace_websocket_prox.Ssh.HostKey.{
  Disk, Stage, creating, chmodding, writing, syncing, renaming, closing, removing, syncing_dir,
  done, Answer, write_step, write_run, not_exist, KeyResult, generated, not_generated, no_directory,
  not_written, written, load_or_create_host_key, encoded, KeyPackages, generate_host_key_pem,
}

-- As the packages document it, gossh.ParsePrivateKey reads a PKCS #8 key in a PEM block of the type
-- PRIVATE KEY back, here as the signer of that key.
abbrev pub IsKeyParser :
    (k : KeyPackages) {Signer : Type 0} → (k.PrivateKey → Signer) → (Text → Option Signer) → Type 0
IsKeyParser k signer parse_private_key =
    (priv : k.PrivateKey) (der : Text)
    → k.marshal_pkcs8 priv ≡ some der
    → parse_private_key (k.encode_to_memory (codes "PRIVATE KEY") der) ≡ some (signer priv)

-- Whether all of the first `n` calls succeed.
abbrev pub first_ok : ℕ → List Answer → Bool
first_ok zero as' = true
first_ok (suc n) [] = false
first_ok (suc n) (a ∷ as') = a.ok && first_ok n as'

-- How writeHostKeyAtomically ends from a stage, with the given answers ahead.
abbrev outcome : Stage → List Answer → Bool
outcome creating as' = first_ok 6 as'
outcome chmodding as' = first_ok 5 as'
outcome writing as' = first_ok 4 as'
outcome syncing as' = first_ok 3 as'
outcome (closing true) as' = first_ok 2 as'
outcome (closing false) as' = false
outcome renaming as' = first_ok 1 as'
outcome removing as' = false
outcome syncing_dir as' = true
outcome (done ok) as' = ok

write_step-outcome :
    (pem : Text) (stage : Stage) (a : Answer) (as' : List Answer) (d : Disk)
    → outcome (write_step pem stage a d).1 as' ≡ outcome stage (a ∷ as')
unfolding write_step
write_step-outcome pem stage a as' d = ground arith

write_run-outcome :
    (pem : Text) (stage : Stage) (as' : List Answer) (d : Disk)
    → left stage ≤ length as'
    → (write_run pem stage as' d).1 ≡ done (outcome stage as')
unfolding write_run
write_run-outcome pem stage [] d h = ground arith
write_run-outcome pem stage (a ∷ as') d h =
    let (d', stage') = write_step pem stage a d in
    write_run-outcome pem stage' as' d' (write_step-left pem stage a d (length as') h)
    ∙ ap done (write_step-outcome pem stage a as' d)

module _ (k : KeyPackages) {Signer : Type 0} (signer : k.PrivateKey → Signer) where
  -- What a first start comes to: without a key or its encoding there is nothing to write, without a
  -- directory or one of the first six calls of writeHostKeyAtomically nothing is installed, and
  -- otherwise the key that was generated is the host key.
  abbrev pub installed : Bool → k.PrivateKey → KeyResult Signer
  installed true priv = generated (signer priv)
  installed false priv = not_written

  abbrev pub made : Option Text → Bool → List Answer → k.PrivateKey → KeyResult Signer
  made none mkdir as' priv = not_generated
  made (some der) false as' priv = no_directory
  made (some der) true as' priv = installed (first_ok 6 as') priv

  abbrev pub first_start : Option k.PrivateKey → Bool → List Answer → KeyResult Signer
  first_start none mkdir as' = not_generated
  first_start (some priv) mkdir as' = made (k.marshal_pkcs8 priv) mkdir as' priv

module _ (k : KeyPackages) {Signer : Type 0} (signer : k.PrivateKey → Signer)
    (parse_private_key : Text → Option Signer) where
  installed_lem :
      (pem : Text) (priv : k.PrivateKey) (r : Disk × Stage) (ok : Bool)
      → parse_private_key pem ≡ some (signer priv)
      → r.1 ≡ done ok
      → written parse_private_key pem r ≡ installed k signer ok priv
  installed_lem pem priv (d, s) true e f = ground arith
  installed_lem pem priv (d, s) false e f = ground arith

  made_lem :
      (priv : k.PrivateKey) (der : Option Text) (mkdir : Bool) (as' : List Answer) (d : Disk)
      → IsKeyParser k signer parse_private_key
      → 8 ≤ length as'
      → k.marshal_pkcs8 priv ≡ der
      → (load_or_create_host_key parse_private_key not_exist
          (encoded k.encode_to_memory der)
          mkdir
          as'
          d).1
        ≡ made k signer der mkdir as' priv
  unfolding load_or_create_host_key
  made_lem priv none mkdir as' d p h e = refl
  made_lem priv (some der) false as' d p h e = refl
  made_lem priv (some der) true as' d p h e =
      let pem = k.encode_to_memory (codes "PRIVATE KEY") der in
      installed_lem pem priv (write_run pem creating as' d) (first_ok 6 as') (p priv der e)
        (write_run-outcome pem creating as' d h)

  generated_lem :
      (o : Option k.PrivateKey) (mkdir : Bool) (as' : List Answer) (d : Disk)
      → IsKeyParser k signer parse_private_key
      → 8 ≤ length as'
      → k.generate_key ≡ o
      → (load_or_create_host_key parse_private_key not_exist
          (generate_host_key_pem k)
          mkdir
          as'
          d).1
        ≡ first_start k signer o mkdir as'
  unfolding generate_host_key_pem load_or_create_host_key
  generated_lem none mkdir as' d p h e = rw e refl
  generated_lem (some priv) mkdir as' d p h e =
      rw e (made_lem priv (k.marshal_pkcs8 priv) mkdir as' d p h refl)

  -- If ParsePrivateKey reads back what generateHostKeyPEM encodes, a start that finds no key file
  -- comes to the signer of the generated key exactly if a key was generated and marshalled, the
  -- directory was made and the six calls of writeHostKeyAtomically up to the rename succeed; each
  -- other failure is reported as what it is, and the parse of the generated key never fails.
  pub load_or_create_host_key-first_start :
      (mkdir : Bool) (as' : List Answer) (d : Disk)
      → IsKeyParser k signer parse_private_key
      → 8 ≤ length as'
      → (load_or_create_host_key parse_private_key not_exist
          (generate_host_key_pem k)
          mkdir
          as'
          d).1
        ≡ first_start k signer k.generate_key mkdir as'
  load_or_create_host_key-first_start mkdir as' d p h =
      generated_lem k.generate_key mkdir as' d p h refl
