-- ===== src/Parser/Edges/Sound.antt =====
-- Each edge of a file stands once, between two different nodes of the file.
use tersecontext.Prelude.{
  ℕ, String, true, false, ◌&&◌, not, ◌≡◌, refl, Option, none, some, List, [], ◌∷◌, ◌++◌, ◌==◌, All,
  All-append, arith, eq_iff, Bool-cases, inl, inr,
}
use tersecontext.Prelude.Dict
use tersecontext.Prelude.Dict.{Dict}
use tersecontext.Prelude.Effects.{Result, ok}
use tersecontext.Prelude.Results.{Holds, Holds-bind, Holds-chain, fold-All}
use tersecontext.Parser.Models.{ParsedNode, IntraFileEdge, calls}
use tersecontext.Parser.Tree.{Node, Python}
use tersecontext.Parser.Python.{Extraction, extract_nodes}
use tersecontext.Parser.Go.{extract_nodes_go}
use tersecontext.Parser.Named.{IsIn, NamesAreIn, IsClosed, extract_nodes-IsClosed}
use tersecontext.Parser.Named.Go.{extract_nodes_go-IsClosed}
use tersecontext.Parser.Edges.Exact.{AreDistinct, has_edge-append}
use tersecontext.Parser.Edges.{
  is_target, has_edge, add_target, add_calls, add_pair, infer_with, infer_calls_edges,
  infer_calls_edges_go, extract, extract_go,
}

abbrev pub Joins : List ParsedNode → IntraFileEdge → Type 0
Joins nodes e =
    IsIn nodes e.source_stable_id
    × IsIn nodes e.target_stable_id
    × ((e.source_stable_id == e.target_stable_id) ≡ false)

pub record AreEdges (nodes : List ParsedNode) (edges : List IntraFileEdge) : Type 0 where
  pub joins : All (Joins nodes) edges
  pub distinct : AreDistinct edges

AreDistinct-last :
    (e : IntraFileEdge) (edges : List IntraFileEdge)
    → has_edge e.source_stable_id e.target_stable_id edges ≡ false
    → AreDistinct edges
    → AreDistinct (edges ++ e ∷ [])
AreDistinct-last e [] h d = (refl, tt)
AreDistinct-last e (x ∷ edges) h d = (
  ground (
    arith,
    d.0,
    has_edge-append x.source_stable_id x.target_stable_id edges (e ∷ []),
    eq_iff e.source_stable_id x.source_stable_id,
    eq_iff x.source_stable_id e.source_stable_id,
    eq_iff e.target_stable_id x.target_stable_id,
    eq_iff x.target_stable_id e.target_stable_id,
  ),
  AreDistinct-last e edges (ground arith) d.1,
)

module _ (nodes : List ParsedNode) where
  new_edge-AreEdges :
      (sid target : String) (edges : List IntraFileEdge)
      → IsIn nodes sid
      → IsIn nodes target
      → (is_target sid target && not (has_edge sid target edges)) ≡ true
      → AreEdges nodes edges
      → AreEdges nodes
          (edges ++ record { source_stable_id = sid; target_stable_id = target; type = calls } ∷ [])
  new_edge-AreEdges sid target edges hs ht h a =
      let e : IntraFileEdge = record {
        source_stable_id = sid;
        target_stable_id = target;
        type = calls;
      } in
      record {
        joins =
            All-append (Joins nodes) edges (e ∷ []) a.joins
              ((hs, ht, ground (arith, eq_iff sid target, eq_iff target sid)), tt);
        distinct = AreDistinct-last e edges (ground arith) a.distinct;
      }

  add_target-AreEdges :
      (sid : String) (o : Option String) (edges : List IntraFileEdge)
      → IsIn nodes sid
      → ((t : String) → o ≡ some t → IsIn nodes t)
      → AreEdges nodes edges
      → AreEdges nodes (add_target sid o edges)
  add_target-AreEdges sid none edges hs ht a = a
  add_target-AreEdges sid (some t) edges hs ht a =
      elim (Bool-cases (is_target sid t && not (has_edge sid t edges))) [
        | inl e ↦ rw e (new_edge-AreEdges sid t edges hs (ht t refl) e a)
        | inr e ↦ rw e a
      ]

  module _ (names : Dict String) (targets : NamesAreIn nodes names) where
    add_calls-AreEdges :
        (sid : String) (called : List String) (edges : List IntraFileEdge)
        → IsIn nodes sid
        → AreEdges nodes edges
        → AreEdges nodes (add_calls names sid called edges)
    unfolding add_calls
    add_calls-AreEdges sid [] edges hs a = a
    add_calls-AreEdges sid (c ∷ called) edges hs a =
        add_calls-AreEdges sid called (add_target sid (Dict.get c names) edges) hs
          (add_target-AreEdges sid (Dict.get c names) edges hs (targets c) a)

    add_pair-AreEdges :
        (find : Node → Result (List String)) (p : ParsedNode × Node) (edges : List IntraFileEdge)
        → IsIn nodes p.0.stable_id
        → AreEdges nodes edges
        → Holds (AreEdges nodes) (add_pair find names p edges)
    unfolding add_pair
    add_pair-AreEdges find p edges hs a = search (Holds-bind, add_calls-AreEdges)

infer_with-AreEdges :
    (find : Node → Result (List String)) (x : Extraction)
    → IsClosed x
    → Holds (AreEdges x.nodes) (infer_with find x)
unfolding infer_with
infer_with-AreEdges find x c =
    fold-All (λ (p : ParsedNode × Node). IsIn x.nodes p.0.stable_id) (AreEdges x.nodes)
      (add_pair find x.name_to_sid) (add_pair-AreEdges x.nodes x.name_to_sid c.targets find)
      x.fn_pairs c.fn_nodes [] (record { joins = tt; distinct = tt })

abbrev pub IsFile : List ParsedNode × List IntraFileEdge → Type 0
IsFile file = AreEdges file.0 file.1

module _ (py : Python) (source : List ℕ) (repo file_path : String) (root : Node) where
  pub extract-IsFile : Holds IsFile (extract py source repo file_path root)
  unfolding extract infer_calls_edges
  extract-IsFile =
      Holds-chain IsFile IsClosed (extract_nodes py source repo file_path root) _
        (extract_nodes-IsClosed py source repo file_path root)
        (λ x c.
          Holds-chain IsFile (AreEdges x.nodes) _ (λ edges. ok (x.nodes, edges))
            (infer_with-AreEdges _ x c) (λ edges a. a))

  pub extract_go-IsFile : Holds IsFile (extract_go py source repo file_path root)
  unfolding extract_go infer_calls_edges_go
  extract_go-IsFile =
      Holds-chain IsFile IsClosed (extract_nodes_go py source repo file_path root) _
        (extract_nodes_go-IsClosed py source repo file_path root)
        (λ x c.
          Holds-chain IsFile (AreEdges x.nodes) _ (λ edges. ok (x.nodes, edges))
            (infer_with-AreEdges _ x c) (λ edges a. a))
