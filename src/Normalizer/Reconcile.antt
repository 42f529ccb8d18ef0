-- ===== src/Normalizer/Reconcile.antt =====
-- services/trace-normalizer/app/reconciler.py: the functions of a trace against the CALLS edges of
-- the static graph. The driver and the answer of its query are parameters.
use tersecontext.Prelude.{
  String, Bool, false, ◌&&◌, ◌||◌, ◌==◌, not, Option, none, some, List, [], ◌∷◌, ◌≡◌, elem, eq_iff,
  refl, arith, if◌then◌else◌,
}
use tersecontext.Normalizer.Models.{Edge}

-- `for fn in observed_fns: if fn not in static_targets and fn not in static_sources: ...`
unfoldable pub dynamic_edges : String → List String → List String → List String → List Edge
dynamic_edges entrypoint targets sources [] = []
dynamic_edges entrypoint targets sources (fn ∷ fns) =
    let rest = dynamic_edges entrypoint targets sources fns in
    if not (elem fn targets) && not (elem fn sources)
    then record { source = entrypoint; target = fn } ∷ rest
    else rest

-- `for src, tgt in static_edges: if tgt not in observed_fns: ...`
unfoldable pub unobserved_edges : List String → List (String × String) → List Edge
unobserved_edges observed [] = []
unobserved_edges observed ((src, tgt) ∷ edges) =
    let rest = unobserved_edges observed edges in
    if not (elem tgt observed) then record { source = src; target = tgt } ∷ rest else rest

abbrev pub sources_of : List (String × String) → List String
sources_of [] = []
sources_of ((src, tgt) ∷ edges) = src ∷ sources_of edges

abbrev pub targets_of : List (String × String) → List String
targets_of [] = []
targets_of ((src, tgt) ∷ edges) = tgt ∷ targets_of edges

-- A driver answers the query for a repository and an entrypoint with rows, or raises (`none`).
abbrev pub Driver : Type 0
Driver = String → String → Option (List (String × String))

abbrev compare_with : String → List String → Option (List (String × String)) → List Edge × List Edge
compare_with entrypoint observed none = ([], [])
compare_with entrypoint observed (some edges) = (
  dynamic_edges entrypoint (targets_of edges) (sources_of edges) observed,
  unobserved_edges observed edges,
)

unfoldable pub reconcile : Option Driver → String → String → List String → List Edge × List Edge
unfolding dynamic_edges unobserved_edges
reconcile none repo entrypoint observed = ([], [])
reconcile (some driver) repo entrypoint observed =
    compare_with entrypoint observed (driver repo entrypoint)

-- An edge from one name to another stands in a list.
abbrev pub has_edge : String → String → List Edge → Bool
has_edge src tgt [] = false
has_edge src tgt (e ∷ edges) = (e.source == src && e.target == tgt) || has_edge src tgt edges

abbrev pub has_pair : String → String → List (String × String) → Bool
has_pair src tgt [] = false
has_pair src tgt ((a, b) ∷ edges) = (a == src && b == tgt) || has_pair src tgt edges

has_edge-dynamic_edges :
    (entrypoint src tgt : String) (targets sources fns : List String)
    → has_edge src tgt (dynamic_edges entrypoint targets sources fns)
      ≡ (entrypoint == src && (elem tgt fns && (not (elem tgt targets) && not (elem tgt sources))))
unfolding dynamic_edges
has_edge-dynamic_edges entrypoint src tgt targets sources [] = ground arith
has_edge-dynamic_edges entrypoint src tgt targets sources (f ∷ fns) =
    ground (arith, has_edge-dynamic_edges entrypoint src tgt targets sources fns, eq_iff f tgt)

has_edge-unobserved_edges :
    (src tgt : String) (observed : List String) (edges : List (String × String))
    → has_edge src tgt (unobserved_edges observed edges)
      ≡ (has_pair src tgt edges && not (elem tgt observed))
unfolding unobserved_edges
has_edge-unobserved_edges src tgt observed [] = refl
has_edge-unobserved_edges src tgt observed ((a, b) ∷ edges) =
    ground (arith, has_edge-unobserved_edges src tgt observed edges, eq_iff b tgt)

-- Where the graph answers, a dynamic-only edge stands between two names exactly if the first one is the
-- entrypoint, the second one was observed, and no static edge begins or ends in the second one; and a
-- never-observed edge exactly if it is a static edge whose target was not observed.
pub reconcile_exact :
    (driver : Driver) (repo entrypoint src tgt : String) (observed : List String)
    (edges : List (String × String))
    → driver repo entrypoint ≡ some edges
    → (has_edge src tgt (reconcile (some driver) repo entrypoint observed).0 ≡ (
        entrypoint == src
        && (elem tgt observed
            && (not (elem tgt (targets_of edges)) && not (elem tgt (sources_of edges))))))
      × (has_edge src tgt (reconcile (some driver) repo entrypoint observed).1
          ≡ (has_pair src tgt edges && not (elem tgt observed)))
unfolding reconcile
reconcile_exact driver repo entrypoint src tgt observed edges answer = rw answer (
  has_edge-dynamic_edges entrypoint src tgt (targets_of edges) (sources_of edges) observed,
  has_edge-unobserved_edges src tgt observed edges,
)
