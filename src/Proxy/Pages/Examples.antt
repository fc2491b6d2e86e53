-- ===== src/Proxy/Pages/Examples.antt =====
-- The page of internal/proxy/server.go for targets that are not SSH servers, with a `%q` for bytes.
use workspace_websocket_prox.Base.{
  ℕ, ◌+◌, ◌/◌, ◌%◌, ◌≡◌, ◌≤◌, ◌<◌, refl, ap, Bool, true, false, none, some, List, [], ◌∷◌, ◌++◌,
  if◌then◌else◌, ◌==◌, ◌||◌, ◌&&◌, ltb, leb, arith, All,
}
use workspace_websocket_prox.Base.Text.{Text, codes, strip_prefix, text_eq}
use workspace_websocket_prox.Proxy.Health.{Probe, probe_target, probe_all, handle_target_health}
use workspace_websocket_prox.Proxy.Health.Reported.{last_result, new_state}
use workspace_websocket_prox.Proxy.Pages.{Fmt, target_page}
use workspace_websocket_prox.Proxy.Pages.Json.{read_object}
use workspace_websocket_prox.Proxy.Pages.Quoting.{escape, IsFmt}
use workspace_websocket_prox.Proxy.Pages.Target.{members, status, read_object-target_page}

abbrev is_plain : ℕ → Bool
is_plain c = leb 32 c && leb c 126

unfoldable all_plain : Text → Bool
all_plain [] = true
all_plain (c ∷ cs) = is_plain c && all_plain cs

abbrev hex : ℕ → ℕ
hex n = if ltb n 10 then 48 + n else 87 + n

-- `\x` with two digits for what is not plain.
abbrev hex_escape : ℕ → Text → Text
hex_escape c rest = b'\\' ∷ b'x' ∷ hex (c / 16 % 16) ∷ hex (c % 16) ∷ rest

unfoldable escape_bytes : Text → Text
escape_bytes [] = []
escape_bytes (c ∷ cs) =
    let rest = escape_bytes cs in
    if c == 34 || c == 92 then 92 ∷ c ∷ rest else if is_plain c then c ∷ rest else hex_escape c rest

abbrev fmt : Fmt
fmt = record {
  quote = λ s. 34 ∷ escape_bytes s ++ 34 ∷ [];
  rfc3339 = λ t. codes "2026-01-01T00:00:01Z";
}

append-all_plain :
    (s t : Text) → all_plain s ≡ true → all_plain t ≡ true → all_plain (s ++ t) ≡ true
unfolding all_plain
append-all_plain [] t h k = k
append-all_plain (c ∷ cs) t h k = ground (arith, append-all_plain cs t)

hex-plain : (n : ℕ) → n < 16 → is_plain (hex n) ≡ true
hex-plain n h = ground arith

escape_bytes-plain : (s : Text) → all_plain (escape_bytes s) ≡ true
unfolding all_plain escape_bytes
escape_bytes-plain [] = refl
escape_bytes-plain (c ∷ cs) = ground (
  arith,
  escape_bytes-plain cs,
  hex-plain (c / 16 % 16) (omega arith),
  hex-plain (c % 16) (omega arith),
)

escape_bytes-escape : (s : Text) → all_plain s ≡ true → escape_bytes s ≡ escape s
unfolding all_plain escape_bytes escape
escape_bytes-escape [] h = refl
escape_bytes-escape (c ∷ cs) h = ground (arith, escape_bytes-escape cs)

all_plain-All : (s : Text) → all_plain s ≡ true → All (λ c. 32 ≤ c) s
unfolding all_plain
all_plain-All [] h = tt
all_plain-All (c ∷ cs) h = (ground arith, all_plain-All cs (ground arith))

All-all_plain : (s : Text) → All (λ c. (32 ≤ c) × (c ≤ 126)) s → all_plain s ≡ true
unfolding all_plain
All-all_plain [] h = refl
All-all_plain (c ∷ cs) h = ground (arith, All-all_plain cs h.1)

fmt-IsFmt : IsFmt fmt all_plain
unfolding all_plain
fmt-IsFmt = record {
  quote-printable = λ s. append-all_plain (escape_bytes s) (34 ∷ []) (escape_bytes-plain s) refl;
  quote-escape = λ s h. ap (λ t. 34 ∷ t ++ 34 ∷ []) (escape_bytes-escape s h);
  no_controls = all_plain-All;
  ascii-printable = All-all_plain;
  append-printable = append-all_plain;
  rfc3339-printable = λ t. refl;
}

-- A TLS alert, with quotes for good measure.
abbrev probes : List Probe
probes =
    record {
      canceled = false;
      now = 1;
      target = record {
        dial = none;
        deadline = none;
        banner = 21 ∷ 3 ∷ 34 ∷ 92 ∷ 10 ∷ [];
        read_error = none;
      };
    }
    ∷ []

abbrev target : Text
target = codes "[::1]:22"

read_object-target_page_example :
    let r = target_page fmt target (probe_all (codes "SSH-") probes new_state).target_health in
    let last = last_result (codes "SSH-") probes none in
    (r.status ≡ status last) × (read_object 4 r.body ≡ some (members fmt target last))
unfolding all_plain
read_object-target_page_example =
    read_object-target_page fmt all_plain target (codes "SSH-") probes fmt-IsFmt refl
      ((tt, tt, tt), tt)

page_status :
    (target_page fmt target (probe_all (codes "SSH-") probes new_state).target_health).status ≡ 503
unfolding target_page probe_all probe_target text_eq strip_prefix handle_target_health
page_status = refl
