-- ===== src/Ssh/HostKey.antt =====
-- internal/sshserver/hostkey.go: loadOrCreateHostKey and writeHostKeyAtomically, on a disk that may
-- lose at a crash what was not flushed.
--
-- Every call of the operating system is one step with an answer; a crash is possible between any
-- two of them. The signer and its parser, and the packages that make a key, are
-- parameters.
pub mod Crash
pub mod Restart
pub mod Generated
mod Examples
use workspace_websocket_prox.Base.{
  ℕ, Bool, true, false, Option, none, some, List, [], ◌∷◌, if◌then◌else◌, take,
}
use workspace_websocket_prox.Base.Text.{Text, codes}

-- The contents that reads see, and whether they have been flushed.
pub record File : Type 0 where
  pub contents : Text
  pub synced : Bool

-- The file at the key's path and the temporary file. While the directory has not been flushed since
-- a rename, `before` is what the path named before it.
pub record Disk : Type 0 where
  pub path : Option File
  pub before : Option (Option File)
  pub temporary : Option File

-- What a crash makes of a file: a file that was not flushed holds arbitrary bytes.
abbrev survive : Text → Option File → Option File
survive garbage none = none
survive garbage (some f) =
    if f.synced then some f else some (record { contents = garbage; synced = true })

abbrev entry : Bool → Option (Option File) → Option File → Option File
entry true (some old) path = old
entry _ _ path = path

-- A crash; the Boolean says whether a rename that was not flushed is lost.
unfoldable pub crash : Bool → Text → Disk → Disk
crash lost garbage d = record {
  path = survive garbage (entry lost d.before d.path);
  before = none;
  temporary = survive garbage d.temporary;
}

-- The next call of writeHostKeyAtomically. `closing` and `removing` come with the outcome so far.
pub data Stage : Type 0 where
  creating chmodding writing syncing renaming : Stage
  closing : (ok : Bool) → Stage
  removing : Stage
  syncing_dir : Stage
  done : (ok : Bool) → Stage

-- How a call answers; a Write that fails has written the first `n` bytes.
pub record Answer : Type 0 where
  pub ok : Bool
  pub n : ℕ

unfoldable pub new_file : Text → File
new_file t = record { contents = t; synced = false }

abbrev flush : Option File → Option File
flush none = none
flush (some f) = some (record f { synced = true })

-- writeHostKeyAtomically with writeAndSync and syncDir, whose failures do not count.
unfoldable pub write_step : Text → Stage → Answer → Disk → Disk × Stage
unfolding new_file
write_step contents creating a d =
    if a.ok then (record d { temporary = some (new_file []) }, chmodding) else (d, done false)
write_step contents chmodding a d = if a.ok then (d, writing) else (d, closing false)
write_step contents writing a d =
    if a.ok
    then (record d { temporary = some (new_file contents) }, syncing)
    else (record d { temporary = some (new_file (take a.n contents)) }, closing false)
write_step contents syncing a d =
    if a.ok then (record d { temporary = flush d.temporary }, closing true) else (d, closing false)
write_step contents (closing true) a d = if a.ok then (d, renaming) else (d, removing)
write_step contents (closing false) a d = (d, removing)
write_step contents renaming a d =
    if a.ok
    then (record { path = d.temporary; before = some d.path; temporary = none }, syncing_dir)
    else (d, removing)
write_step contents removing a d =
    if a.ok then (record d { temporary = none }, done false) else (d, done false)
write_step contents syncing_dir a d =
    if a.ok then (record d { before = none }, done true) else (d, done true)
write_step contents (done ok) a d = (d, done ok)

-- The calls that a list of answers allows for.
unfoldable pub write_run : Text → Stage → List Answer → Disk → Disk × Stage
unfolding write_step
write_run contents stage [] d = (d, stage)
write_run contents stage (a ∷ as') d =
    let (d', stage') = write_step contents stage a d in write_run contents stage' as' d'

-- os.ReadFile.
pub data ReadResult : Type 0 where
  contents_of : Text → ReadResult
  not_exist : ReadResult
  read_error : ReadResult

abbrev pub read_file : Option File → ReadResult
read_file none = not_exist
read_file (some f) = contents_of f.contents

-- What loadOrCreateHostKey returns; `unfinished` where the answers did not last.
pub data KeyResult (Signer : Type 0) : Type 0 where
  loaded : Signer → KeyResult Signer
  generated : Signer → KeyResult Signer
  unreadable unread : KeyResult Signer
  not_generated no_directory not_written not_parsed unfinished : KeyResult Signer

module _ {Signer : Type 0} (parse_private_key : Text → Option Signer) where
  abbrev parsed : KeyResult Signer → (Signer → KeyResult Signer) → Text → KeyResult Signer
  parsed failed ok contents = elim (parse_private_key contents) [
    | none ↦ failed
    | some signer ↦ ok signer
  ]

  abbrev written : Text → Disk × Stage → KeyResult Signer
  written contents (d, done true) = parsed not_parsed generated contents
  written contents (d, done false) = not_written
  written contents (d, _) = unfinished

  -- loadOrCreateHostKey: what ReadFile answers, the PEM that was generated, whether MkdirAll
  -- succeeds, and the answers to the calls of writeHostKeyAtomically.
  unfoldable pub load_or_create_host_key :
      ReadResult → Option Text → Bool → List Answer → Disk → Disk × KeyResult Signer
  unfolding write_run
  load_or_create_host_key (contents_of pem) gen mkdir as' d = (d, parsed unreadable loaded pem)
  load_or_create_host_key read_error gen mkdir as' d = (d, unread)
  load_or_create_host_key not_exist none mkdir as' d = (d, not_generated)
  load_or_create_host_key not_exist (some pem) false as' d = (d, no_directory)
  load_or_create_host_key not_exist (some pem) true as' d =
      let r = write_run pem creating as' d in (r.0, written pem r)

-- Packages ed25519, x509 and pem: GenerateKey, MarshalPKCS8PrivateKey, and EncodeToMemory of a block
-- with a type and bytes.
pub record KeyPackages : Type 1 where
  pub PrivateKey : Type 0
  pub generate_key : Option PrivateKey
  pub marshal_pkcs8 : PrivateKey → Option Text
  pub encode_to_memory : (type bytes : Text) → Text

abbrev pub encoded : (Text → Text → Text) → Option Text → Option Text
encoded encode none = none
encoded encode (some der) = some (encode (codes "PRIVATE KEY") der)

-- generateHostKeyPEM
unfoldable pub generate_host_key_pem : KeyPackages → Option Text
generate_host_key_pem k = elim (k.generate_key) [
  | none ↦ none
  | some priv ↦ encoded k.encode_to_memory (k.marshal_pkcs8 priv)
]
