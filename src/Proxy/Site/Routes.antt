-- ===== src/Proxy/Site/Routes.antt =====
-- NewServer of internal/proxy/server.go: where the paths of requests lead.
use workspace_websocket_prox.Base.{
  ◌≡◌, ◌⊎◌, ◌∙◌, ◌==◌, inl, inr, sym, ap, refl, Bool, true, false, Option, none, some, List, [],
  ◌∷◌, ite, arith, All,
}
use workspace_websocket_prox.Base.Text.{Text, codes, text_eq}
use workspace_websocket_prox.Proxy.Site.{
  Page, health, target_health, metrics, web_socket, health_path, target_health_path, metrics_path,
  routes, Mux,
}

-- The handler of the pattern that is the path itself.
unfoldable pub pattern_of : List (Text × Page) → Text → Option Page
pattern_of [] path = none
pattern_of ((p, page) ∷ rs) path = ite (text_eq p path) (some page) (pattern_of rs path)

-- A pattern that matches more than itself.
unfoldable pub is_subtree : Text → Bool
is_subtree [] = false
is_subtree (c ∷ []) = c == b'/'
is_subtree (c ∷ cs) = is_subtree cs

-- What net/http documents of ServeMux, for paths that it does not redirect: the pattern that is the
-- path itself takes precedence, and the pattern `/` gets the paths of no other one, where no other
-- one ends in a slash.
pub record IsMux (mux : Mux) (is_clean : Text → Bool) : Type 0 where
  pub exact :
      (rs : List (Text × Page)) (path : Text) (page : Page)
      → is_clean path ≡ true
      → pattern_of rs path ≡ some page
      → mux rs path ≡ some page
  pub rest :
      (rs : List (Text × Page)) (path : Text) (page : Page)
      → is_clean path ≡ true
      → pattern_of rs path ≡ none
      → pattern_of rs (codes "/") ≡ some page
      → All (λ r. (is_subtree r.0 ≡ false) ⊎ (r.0 ≡ codes "/")) rs
      → mux rs path ≡ some page

-- Everything but three paths is a WebSocket.
abbrev pub page_of : Text → Page
page_of path = ite (text_eq health_path path) health (
    ite (text_eq target_health_path path) target_health
      (ite (text_eq metrics_path path) metrics web_socket))

page_of-pattern :
    (path : Text)
    → (pattern_of routes path ≡ some (page_of path))
      ⊎ ((pattern_of routes path ≡ none) × (page_of path ≡ web_socket))
unfolding routes pattern_of
page_of-pattern path = ground arith

pub mux-page_of :
    (mux : Mux) (is_clean : Text → Bool) (path : Text)
    → IsMux mux is_clean
    → is_clean path ≡ true
    → mux routes path ≡ some (page_of path)
unfolding routes pattern_of is_subtree text_eq
mux-page_of mux is_clean path m c = elim (page_of-pattern path) [
  | inl e ↦ m.exact routes path (page_of path) c e
  | inr (e, f) ↦
      m.rest routes path web_socket c e refl (inl refl, (inl refl, (inl refl, (inr refl, tt))))
      ∙ ap some (sym f)
]
