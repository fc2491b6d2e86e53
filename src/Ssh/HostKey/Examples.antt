-- ===== src/Ssh/HostKey/Examples.antt =====
-- Starts of a server with a small key.
use workspace_websocket_prox.Base.{
  ℕ, ◌≡◌, ◌⊎◌, refl, true, Option, none, some, List, [], ◌∷◌, ◌++◌, replicate, arith,
}
use workspace_websocket_prox.Base.Text.{Text, codes, strip_prefix}
use workspace_websocket_prox.Ssh.HostKey.Generated.{
  IsKeyParser, first_start, load_or_create_host_key-first_start,
}
use workspace_websocket_prox.Ssh.HostKey.{
  Disk, crash, creating, Answer, new_file, write_step, write_run, contents_of, not_exist, read_file,
  loaded, generated, KeyPackages, generate_host_key_pem, load_or_create_host_key,
}
use workspace_websocket_prox.Ssh.HostKey.Crash.{crash-write_run}
use workspace_websocket_prox.Ssh.HostKey.Restart.{
  IsDone, write_run-IsDone, load_or_create_host_key-twice,
}

abbrev empty_disk : Disk
empty_disk = record { path = none; before = none; temporary = none }

abbrev pem : Text
pem = 7 ∷ 8 ∷ []

abbrev fine : Answer
fine = record { ok = true; n = 0 }

abbrev eight : List Answer
eight = replicate 8 fine

-- The parser takes the first byte.
abbrev first_byte : Text → Option ℕ
first_byte [] = none
first_byte (x ∷ xs) = some x

crash-write_run_example :
    (read_file (crash true [] (write_run pem creating eight empty_disk).0).path ≡ not_exist)
    ⊎ (read_file (crash true [] (write_run pem creating eight empty_disk).0).path ≡ contents_of pem)
crash-write_run_example = crash-write_run pem eight empty_disk true [] (refl, refl)

write_run-IsDone_test : IsDone (write_run pem creating eight empty_disk).1
write_run-IsDone_test = write_run-IsDone pem eight empty_disk (omega arith)

generated_here :
    (load_or_create_host_key first_byte not_exist (some pem) true eight empty_disk).1 ≡ generated 7
unfolding load_or_create_host_key write_run write_step new_file
generated_here = refl

load_or_create_host_key-twice_example :
    (load_or_create_host_key first_byte
      (read_file
        (load_or_create_host_key first_byte not_exist (some pem) true eight empty_disk).0.path)
      (some (5 ∷ []))
      true
      eight
      (load_or_create_host_key first_byte not_exist (some pem) true eight empty_disk).0).1
    ≡ loaded 7
load_or_create_host_key-twice_example =
    load_or_create_host_key-twice first_byte (some pem) true eight empty_disk (some (5 ∷ [])) true
      eight 7 (refl, refl) generated_here

-- A key is a byte, and its PEM the type, a colon and that byte.
abbrev byte_keys : KeyPackages
byte_keys = record {
  PrivateKey = ℕ;
  generate_key = some 7;
  marshal_pkcs8 = λ priv. some (priv ∷ []);
  encode_to_memory = λ type bytes. type ++ b':' ∷ bytes;
}

abbrev parse_byte : Text → Option ℕ
parse_byte pem = elim (strip_prefix (codes "PRIVATE KEY:") pem) [
  | some (x ∷ []) ↦ some x
  | _ ↦ none
]

byte_keys-IsKeyParser : IsKeyParser byte_keys (λ x. x) parse_byte
unfolding strip_prefix
byte_keys-IsKeyParser priv der e = ground arith

load_or_create_host_key-first_start_example :
    (load_or_create_host_key parse_byte not_exist
      (generate_host_key_pem byte_keys)
      true
      eight
      empty_disk).1
    ≡ first_start byte_keys (λ x. x) (some 7) true eight
load_or_create_host_key-first_start_example =
    load_or_create_host_key-first_start byte_keys (λ x. x) parse_byte true eight empty_disk
      byte_keys-IsKeyParser (omega arith)
