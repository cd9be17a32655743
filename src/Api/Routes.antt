-- ===== src/Api/Routes.antt =====
-- NewHandler and ServeHTTP (internal/crhttp/handler.go): which handler a path reaches.
use Prim.Native.String.{◌++◌ as concat}
use text.Mathlib.Text.{starts_with}
use corerad.Common.{
  ◌≡◌, ◌≢◌, ◌↔◌, refl, sym, subst, true, false, String, List, [], ◌∷◌, ◌++◌, Option, some, none,
  ◌==◌, string_eq, if◌then◌else◌, arith,
}
use corerad.Config.Types.{Debug}

-- What answers a request: the banner, a handler of the mux, or http.NotFound.
pub data Endpoint : Type 0 where
  banner interfaces metrics : Endpoint
  pprof_index pprof_cmdline pprof_profile pprof_symbol pprof_trace : Endpoint
  -- A redirect that adds a slash.
  redirect : Endpoint
  not_found : Endpoint

-- The patterns that NewHandler registers with their handlers: those that are whole paths, and those
-- that end in a slash and stand for all paths below them.
pub record Mux : Type 0 where
  pub exact : List (String × Endpoint)
  pub subtrees : List (String × Endpoint)

unfoldable pub new_handler : Debug → Mux
new_handler d = record {
  exact =
      ("/_/api/interfaces", interfaces)
      ∷ ((if d.prometheus then ("/metrics", metrics) ∷ [] else [])
          ++ (if d.pprof
              then ("/debug/pprof/cmdline", pprof_cmdline)
                ∷ ("/debug/pprof/profile", pprof_profile)
                ∷ ("/debug/pprof/symbol", pprof_symbol)
                ∷ ("/debug/pprof/trace", pprof_trace)
                ∷ []
              else []));
  subtrees = if d.pprof then ("/debug/pprof/", pprof_index) ∷ [] else [];
}

unfoldable pub find_exact : String → List (String × Endpoint) → Option Endpoint
find_exact path [] = none
find_exact path ((pattern, e) ∷ rest) =
    let later = find_exact path rest in if path == pattern then some e else later

-- Of the patterns that NewHandler registers at most one ends in a slash, so that the first is the
-- longest.
unfoldable pub find_subtree : String → List (String × Endpoint) → Option Endpoint
find_subtree path [] = none
find_subtree path ((pattern, e) ∷ rest) =
    let later = find_subtree path rest in if starts_with path pattern then some e else later

-- ServeHTTP, for the paths that the mux takes as they are: those without "//" and without the elements
-- "." and "..".
unfoldable pub serve_http : Debug → String → Endpoint
serve_http d path = if path == "/" then banner else elim (find_exact path (new_handler d).exact) [
  | some e ↦ e
  | none ↦ elim (find_subtree path (new_handler d).subtrees) [
    | some e ↦ e
    | none ↦ elim (find_exact (concat path "/") (new_handler d).subtrees) [
      | some e ↦ redirect
      | none ↦ not_found
    ]
  ]
]

at_metrics : (d : Debug) → d.prometheus ≡ true → serve_http d "/metrics" ≡ metrics
unfolding serve_http new_handler find_exact
at_metrics d on = rw on refl

-- Whatever the configuration, the interfaces route answers its path, and no other; the metrics answer
-- theirs just where they are enabled. Where neither the metrics nor pprof are, every other path but
-- "/" is not found.
pub serve_http_lem :
    (d : Debug) (path : String)
    → ((serve_http d path ≡ interfaces) ↔ (path ≡ "/_/api/interfaces"))
      × ((serve_http d path ≡ metrics) ↔ ((d.prometheus ≡ true) × (path ≡ "/metrics")))
      × (d.prometheus ≡ false
          → d.pprof ≡ false
          → path ≢ "/"
          → path ≢ "/_/api/interfaces"
          → serve_http d path ≡ not_found)
unfolding serve_http new_handler find_exact find_subtree
serve_http_lem d path = (
  (
    λ h. ground (arith, string_eq.beq_iff path "/_/api/interfaces"),
    λ q. subst (λ p. serve_http d p ≡ interfaces) (sym q) refl,
  ),
  (
    λ h. ground (arith, string_eq.beq_iff path "/metrics"),
    λ (on, q). subst (λ p. serve_http d p ≡ metrics) (sym q) (at_metrics d on),
  ),
  λ m p n k. ground (arith, string_eq.beq_iff path "/", string_eq.beq_iff path "/_/api/interfaces"),
)
