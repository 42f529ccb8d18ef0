-- ===== src/Parser/Edges/Exact.antt =====
-- What edges a file has: those that the calls name, each once, and between nodes of the file.
use tersecontext.Prelude.{
  ℕ, String, Bool, false, ◌&&◌, ◌||◌, ◌≡◌, refl, Option, none, some, List, [], ◌∷◌, ◌++◌, ◌==◌, any,
  arith, eq_iff, inl, inr,
}
use tersecontext.Prelude.Dict
use tersecontext.Prelude.Dict.{Dict}
use tersecontext.Prelude.Effects.{Result, ok, raise}
use tersecontext.Prelude.Results.{Holds, Holds-ok, Result-cases, fold}
use tersecontext.Parser.Models.{ParsedNode, IntraFileEdge, calls}
use tersecontext.Parser.Tree.{Node, Python}
use tersecontext.Parser.Python.{Extraction}
use tersecontext.Parser.Edges.{
  is_target, has_edge, add_target, add_calls, add_pair, infer_with, infer_calls_edges,
  find_call_names, find_call_names_go, infer_calls_edges_go,
}

-- A name stands for a target that is not the caller itself.
abbrev pub is_target_at : String → String → Option String → Bool
is_target_at sid t none = false
is_target_at sid t (some target) = target == t && is_target sid target

abbrev pub names_target : Dict String → String → String → String → Bool
names_target names sid t called = is_target_at sid t (Dict.get called names)

-- The function of the pair calls the target.
abbrev pub calls_target : Dict String → String → String → Result (List String) → Bool
calls_target names sid t (ok called) = any (names_target names sid t) called
calls_target names sid t (raise e) = false

abbrev pub pair_calls :
    (Node → Result (List String)) → Dict String → String → String → ParsedNode × Node → Bool
pair_calls find names s t p = p.0.stable_id == s && calls_target names p.0.stable_id t (find p.1)

-- No edge is another one's copy.
abbrev pub AreDistinct : List IntraFileEdge → Type 0
AreDistinct [] = Unit
AreDistinct (e ∷ edges) =
    (has_edge e.source_stable_id e.target_stable_id edges ≡ false) × AreDistinct edges

pub or_assoc : (a b c : Bool) → ((a || b) || c) ≡ (a || (b || c))
or_assoc a b c = ground arith

pub has_edge-append :
    (s t : String) (xs ys : List IntraFileEdge)
    → has_edge s t (xs ++ ys) ≡ (has_edge s t xs || has_edge s t ys)
has_edge-append s t [] ys = refl
has_edge-append s t (x ∷ xs) ys = ground (arith, has_edge-append s t xs ys)

has_edge-add_target :
    (s t sid : String) (target : Option String) (edges : List IntraFileEdge)
    → has_edge s t (add_target sid target edges)
      ≡ (has_edge s t edges || (sid == s && is_target_at sid t target))
has_edge-add_target s t sid none edges = ground arith
has_edge-add_target s t sid (some target) edges = ground (
  arith,
  has_edge-append s t edges
      (record { source_stable_id = sid; target_stable_id = target; type = calls } ∷ []),
  eq_iff sid s,
  eq_iff target t,
)

has_edge-add_calls :
    (names : Dict String) (s t sid : String) (called : List String) (edges : List IntraFileEdge)
    → has_edge s t (add_calls names sid called edges)
      ≡ (has_edge s t edges || (sid == s && any (names_target names sid t) called))
unfolding add_calls
has_edge-add_calls names s t sid [] edges = ground arith
has_edge-add_calls names s t sid (c ∷ called) edges = ground (
  arith,
  has_edge-add_calls names s t sid called (add_target sid (Dict.get c names) edges),
  has_edge-add_target s t sid (Dict.get c names) edges,
)

module _ (find : Node → Result (List String)) (names : Dict String) where
  fold-pair_calls :
      (s t : String) (pairs : List (ParsedNode × Node)) (edges : List IntraFileEdge)
      → Holds
          (λ found.
            has_edge s t found ≡ (has_edge s t edges || any (pair_calls find names s t) pairs))
          (fold (add_pair find names) pairs edges)
  unfolding fold add_pair
  fold-pair_calls s t [] edges = ground arith
  fold-pair_calls s t (p ∷ pairs) edges = elim (Result-cases (find p.1)) [
    | inl (called, e) ↦
        let rest = fold-pair_calls s t pairs (add_calls names p.0.stable_id called edges) in
        rw e (rw or_assoc at (rw (has_edge-add_calls names s t p.0.stable_id called edges) at rest))
    | inr (x, e) ↦ rw e tt
  ]

module _ (py : Python) (source : List ℕ) (x : Extraction) (s t : String) where
  infer_with-exact :
      (find : Node → Result (List String)) {edges : List IntraFileEdge}
      → infer_with find x ≡ ok edges
      → has_edge s t edges ≡ any (pair_calls find x.name_to_sid s t) x.fn_pairs
  unfolding infer_with
  infer_with-exact find {edges} e =
      Holds-ok (λ found. has_edge s t found ≡ any (pair_calls find x.name_to_sid s t) x.fn_pairs) e
        (fold-pair_calls find x.name_to_sid s t x.fn_pairs [])

  -- Where the calls of a Python file can be read, an edge stands from one function to another exactly
  -- if the body of a function with the first identity calls a name that stands for the second one, and
  -- the two differ.
  pub infer_calls_edges-exact :
      {edges : List IntraFileEdge}
      → infer_calls_edges py source x ≡ ok edges
      → has_edge s t edges
        ≡ any (pair_calls (find_call_names py source) x.name_to_sid s t) x.fn_pairs
  unfolding infer_calls_edges
  infer_calls_edges-exact e = infer_with-exact (find_call_names py source) e

  -- The same of a Go file.
  pub infer_calls_edges_go-exact :
      {edges : List IntraFileEdge}
      → infer_calls_edges_go py source x ≡ ok edges
      → has_edge s t edges
        ≡ any (pair_calls (find_call_names_go py source) x.name_to_sid s t) x.fn_pairs
  unfolding infer_calls_edges_go
  infer_calls_edges_go-exact e = infer_with-exact (find_call_names_go py source) e
