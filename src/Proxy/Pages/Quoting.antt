-- ===== src/Proxy/Pages/Quoting.antt =====
-- Package fmt's `%q`, as internal/proxy/server.go relies on it, read back as JSON.
use workspace_websocket_prox.Base.{
  ℕ, ◌≡◌, ◌∙◌, ◌≤◌, refl, ap, Bool, true, false, some, [], ◌∷◌, ◌++◌, if◌then◌else◌, ◌==◌, ◌||◌,
  arith, All,
}
use mathlib.Core.List.{append_assoc}
use workspace_websocket_prox.Base.Text.{Text}
use workspace_websocket_prox.Proxy.Pages.{Fmt}
use workspace_websocket_prox.Proxy.Pages.Json.{read_chars, read_string}

-- A `\` before each `"` and `\`.
unfoldable pub escape : Text → Text
escape [] = []
escape (c ∷ cs) = if c == 34 || c == 92 then 92 ∷ c ∷ escape cs else c ∷ escape cs

-- What the packages document: `%q` is a double-quoted string that is safely escaped with Go syntax,
-- and so consists of printable characters; of printable characters only `"` and `\` are escaped.
-- `is_printable` holds of the texts of printable characters, which are no control characters, of
-- texts of ASCII letters, digits, punctuation and spaces, and of the formatted times.
pub record IsFmt (f : Fmt) (is_printable : Text → Bool) : Type 0 where
  pub quote-printable : (s : Text) → is_printable (f.quote s) ≡ true
  pub quote-escape : (s : Text) → is_printable s ≡ true → f.quote s ≡ 34 ∷ escape s ++ 34 ∷ []
  pub no_controls : (s : Text) → is_printable s ≡ true → All (λ c. 32 ≤ c) s
  pub ascii-printable : (s : Text) → All (λ c. (32 ≤ c) × (c ≤ 126)) s → is_printable s ≡ true
  pub append-printable :
      (s t : Text) → is_printable s ≡ true → is_printable t ≡ true → is_printable (s ++ t) ≡ true
  pub rfc3339-printable : (t : ℕ) → is_printable (f.rfc3339 t) ≡ true

read_chars-escape :
    (s rest : Text)
    → All (λ c. 32 ≤ c) s
    → read_chars false (escape s ++ 34 ∷ rest) ≡ some (s, rest)
unfolding read_chars escape
read_chars-escape [] rest h = refl
read_chars-escape (c ∷ cs) rest (h, hs) = ground (arith, read_chars-escape cs rest hs)

-- A quoted printable text is a JSON string of that text.
pub read_string-quote :
    (f : Fmt) (is_printable : Text → Bool) (s rest : Text)
    → IsFmt f is_printable
    → is_printable s ≡ true
    → read_string (f.quote s ++ rest) ≡ some (s, rest)
unfolding read_string
read_string-quote f is_printable s rest d p =
    ap (λ q. read_string (q ++ rest)) (d.quote-escape s p)
    ∙ ap (λ q. read_chars false q) (append_assoc (escape s) (34 ∷ []) rest)
    ∙ read_chars-escape s rest (d.no_controls s p)
