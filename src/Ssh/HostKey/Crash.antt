-- ===== src/Ssh/HostKey/Crash.antt =====
-- What a restart finds.
use workspace_websocket_prox.Base.{
  ◌≡◌, ◌⊎◌, Bool, true, false, Option, none, some, List, [], ◌∷◌, arith,
}
use workspace_websocket_prox.Base.Text.{Text}
use workspace_websocket_prox.Ssh.HostKey.{
  File, Disk, crash, Stage, creating, chmodding, writing, syncing, renaming, closing, removing,
  syncing_dir, done, Answer, new_file, write_step, write_run, contents_of, not_exist, read_file,
}

-- The path names no file, or the whole key, flushed.
abbrev IsWhole : Text → Option File → Type 0
IsWhole contents none = Unit {0}
IsWhole contents (some f) = (f.contents ≡ contents) × (f.synced ≡ true)

abbrev WasWhole : Text → Option (Option File) → Type 0
WasWhole contents none = Unit {0}
WasWhole contents (some o) = IsWhole contents o

abbrev pub IsFlushed : Text → Option File → Type 0
IsFlushed contents none = ⊥
IsFlushed contents (some f) = (f.contents ≡ contents) × (f.synced ≡ true)

-- The temporary file before Sync, and before Close and Rename.
abbrev pub StageAgrees : Text → Stage → Disk → Type 0
StageAgrees contents syncing d = d.temporary ≡ some (new_file contents)
StageAgrees contents (closing true) d = IsFlushed contents d.temporary
StageAgrees contents renaming d = IsFlushed contents d.temporary
StageAgrees contents (done true) d = IsFlushed contents d.path
StageAgrees contents syncing_dir d = IsFlushed contents d.path
StageAgrees contents _ d = Unit {0}

abbrev pub Safe : Text → Disk → Type 0
Safe contents d = IsWhole contents d.path × WasWhole contents d.before

write_step-Safe :
    (contents : Text) (stage : Stage) (a : Answer) (d : Disk)
    → Safe contents d
    → StageAgrees contents stage d
    → Safe contents (write_step contents stage a d).0
      × StageAgrees contents (write_step contents stage a d).1 (write_step contents stage a d).0
unfolding write_step new_file
write_step-Safe contents creating a d h s = ground arith
write_step-Safe contents chmodding a d h s = ground arith
write_step-Safe contents writing a d h s = ground arith
write_step-Safe contents syncing a d h s = ground arith
write_step-Safe contents (closing true) a d h s = ground arith
write_step-Safe contents (closing false) a d h s = ground arith
write_step-Safe contents renaming a d h s = ground arith
write_step-Safe contents removing a d h s = ground arith
write_step-Safe contents syncing_dir a d h s = ground arith
write_step-Safe contents (done ok) a d h s = (h, s)

pub write_run-Safe :
    (contents : Text) (stage : Stage) (as' : List Answer) (d : Disk)
    → Safe contents d
    → StageAgrees contents stage d
    → Safe contents (write_run contents stage as' d).0
      × StageAgrees contents (write_run contents stage as' d).1 (write_run contents stage as' d).0
unfolding write_run
write_run-Safe contents stage [] d h s = (h, s)
write_run-Safe contents stage (a ∷ as') d h s =
    let n = write_step-Safe contents stage a d h s in
    write_run-Safe contents (write_step contents stage a d).1 as' (write_step contents stage a d).0
      n.0 n.1

crash-read :
    (contents : Text) (lost : Bool) (garbage : Text) (d : Disk)
    → Safe contents d
    → (read_file (crash lost garbage d).path ≡ not_exist)
      ⊎ (read_file (crash lost garbage d).path ≡ contents_of contents)
unfolding crash
crash-read contents lost garbage d h = ground arith

-- The key's path names no file and nothing waits to be flushed.
abbrev pub IsNew : Disk → Type 0
IsNew d = (d.path ≡ none) × (d.before ≡ none)

pub IsNew-Safe : (contents : Text) (d : Disk) → IsNew d → Safe contents d
IsNew-Safe contents d h = ground arith

-- If the path names no file and the first start crashes after any number of calls of
-- writeHostKeyAtomically, however they answered and whatever the crash makes of data that was not
-- flushed, the next start finds no key or the complete one.
pub crash-write_run :
    (contents : Text) (as' : List Answer) (d : Disk) (lost : Bool) (garbage : Text)
    → IsNew d
    → (read_file (crash lost garbage (write_run contents creating as' d).0).path ≡ not_exist)
      ⊎ (read_file (crash lost garbage (write_run contents creating as' d).0).path
          ≡ contents_of contents)
crash-write_run contents as' d lost garbage h =
    crash-read contents lost garbage (write_run contents creating as' d).0
      (write_run-Safe contents creating as' d (IsNew-Safe contents d h) tt).0
