-- ===== src/Parser/Edges.antt =====
-- services/parser/app/py_edges.py, go_edges.py, extractor.py and extractor_go.py: the calls inside a
-- file, and what a file consists of.
pub mod Exact
pub mod Sound
use tersecontext.Prelude.{
  String, Bool, true, false, ◌&&◌, ◌||◌, not, Option, none, some, List, [], ◌∷◌, ◌++◌, ◌==◌, any,
  keep, elem, map, eqb, ℕ, if◌then◌else◌,
}
use tersecontext.Prelude.Text.{codes}
use tersecontext.Prelude.Dict
use tersecontext.Prelude.Dict.{Dict}
use tersecontext.Prelude.Effects.{Result, ok}
use tersecontext.Prelude.Results.{◌>>=◌, fold}
use tersecontext.Parser.Models.{
  DiffType, added, modified, deleted, full_rescan, FileChangedEvent, ParsedNode, IntraFileEdge,
  calls,
}
use tersecontext.Parser.Python.{Extraction, extract_nodes}
use tersecontext.Parser.Go.{extract_nodes_go}
use tersecontext.Parser.Tree.{
  Node, node, Children, end, child, Python, node_type, child_by_field_name, text, text_of,
}

abbrev pub same_bytes : List ℕ → List ℕ → Bool
same_bytes [] [] = true
same_bytes [] (c ∷ s) = false
same_bytes (b ∷ bs) [] = false
same_bytes (b ∷ bs) (c ∷ s) = eqb b c && same_bytes bs s

module _ (py : Python) (source : List ℕ) where
  -- `obj.text == b"self"`
  abbrev pub is_self : Node → Bool
  is_self obj = same_bytes (text source obj) (codes "self")

  abbrev pub self_attribute : Option Node → Option Node → Result (List String)
  self_attribute none attr = ok []
  self_attribute (some obj) none = ok []
  self_attribute (some obj) (some attr) =
      if is_self obj then (do name ← text_of py source attr; ok (name ∷ [])) else ok []

  abbrev pub name_called : Option Node → Result (List String)
  name_called none = ok []
  name_called (some func) =
      if node_type func == "identifier"
      then (do name ← text_of py source func; ok (name ∷ []))
      else if node_type func == "attribute"
      then self_attribute (child_by_field_name "object" func) (child_by_field_name "attribute" func)
      else ok []

  abbrev pub names_at : Node → Result (List String)
  names_at n =
      if node_type n == "call" then name_called (child_by_field_name "function" n) else ok []

  abbrev pub field_called : Option Node → Result (List String)
  field_called none = ok []
  field_called (some field) = do name ← text_of py source field; ok (name ∷ [])

  abbrev pub name_called_go : Option Node → Result (List String)
  name_called_go none = ok []
  name_called_go (some func) =
      if node_type func == "identifier"
      then (do name ← text_of py source func; ok (name ∷ []))
      else if node_type func == "selector_expression"
      then field_called (child_by_field_name "field" func)
      else ok []

  abbrev pub names_at_go : Node → Result (List String)
  names_at_go n =
      if node_type n == "call_expression"
      then name_called_go (child_by_field_name "function" n)
      else ok []

-- `walk`: a node before its children, the children in order.
module _ (names_at : Node → Result (List String)) where
  unfoldable mutual
    pub walk_node : Node → Result (List String)
    walk_node (node t e cs) = do
      here ← names_at (node t e cs)
      below ← walk_children cs
      ok (here ++ below)

    pub walk_children : Children → Result (List String)
    walk_children end = ok []
    walk_children (child is_named field n cs) = do
      here ← walk_node n
      later ← walk_children cs
      ok (here ++ later)

-- The edges of one function, the names it calls in order. `seen_edges` is the set of the edges.
abbrev pub is_edge : String → String → IntraFileEdge → Bool
is_edge s t e = e.source_stable_id == s && e.target_stable_id == t

abbrev pub has_edge : String → String → List IntraFileEdge → Bool
has_edge s t edges = any (is_edge s t) edges

abbrev pub is_target : String → String → Bool
is_target sid target = not (target == "") && not (target == sid)

abbrev pub add_target : String → Option String → List IntraFileEdge → List IntraFileEdge
add_target sid none edges = edges
add_target sid (some target) edges =
    if is_target sid target && not (has_edge sid target edges)
    then edges ++ record { source_stable_id = sid; target_stable_id = target; type = calls } ∷ []
    else edges

unfoldable pub add_calls :
    Dict String → String → List String → List IntraFileEdge → List IntraFileEdge
add_calls name_to_sid sid [] edges = edges
add_calls name_to_sid sid (called ∷ names) edges =
    add_calls name_to_sid sid names (add_target sid (Dict.get called name_to_sid) edges)

module _ (find_names : Node → Result (List String)) where
  unfoldable pub add_pair :
      Dict String → ParsedNode × Node → List IntraFileEdge → Result (List IntraFileEdge)
  unfolding add_calls
  add_pair name_to_sid pair edges = do
    names ← find_names pair.1
    ok (add_calls name_to_sid pair.0.stable_id names edges)

  unfoldable pub infer_with : Extraction → Result (List IntraFileEdge)
  unfolding add_pair
  infer_with x = fold (add_pair x.name_to_sid) x.fn_pairs []

module _ (py : Python) (source : List ℕ) where
  unfoldable pub find_call_names : Node → Result (List String)
  unfolding walk_node
  find_call_names = walk_node (names_at py source)

  unfoldable pub find_call_names_go : Node → Result (List String)
  unfolding walk_node
  find_call_names_go = walk_node (names_at_go py source)

  unfoldable pub infer_calls_edges : Extraction → Result (List IntraFileEdge)
  unfolding find_call_names infer_with
  infer_calls_edges = infer_with find_call_names

  unfoldable pub infer_calls_edges_go : Extraction → Result (List IntraFileEdge)
  unfolding find_call_names_go infer_with
  infer_calls_edges_go = infer_with find_call_names_go

  module _ (repo file_path : String) where
    unfoldable pub extract : Node → Result (List ParsedNode × List IntraFileEdge)
    unfolding extract_nodes infer_calls_edges
    extract root = do
      x ← extract_nodes py source repo file_path root
      edges ← infer_calls_edges x
      ok (x.nodes, edges)

    unfoldable pub extract_go : Node → Result (List ParsedNode × List IntraFileEdge)
    unfolding extract_nodes_go infer_calls_edges_go
    extract_go root = do
      x ← extract_nodes_go py source repo file_path root
      edges ← infer_calls_edges_go x
      ok (x.nodes, edges)

abbrev pub ids : List ParsedNode → List String
ids nodes = map (λ (n : ParsedNode). n.stable_id) nodes

-- diff_type: an event of another type is refused by the model of the events.
abbrev pub emitted : FileChangedEvent → ParsedNode → Bool
emitted event n = elem n.stable_id (event.changed_nodes ++ event.added_nodes)

abbrev pub filter_of :
    DiffType
    → FileChangedEvent
    → List ParsedNode
    → List IntraFileEdge
    → List ParsedNode × List IntraFileEdge
filter_of full_rescan event nodes edges = (nodes, edges)
filter_of added event nodes edges = (nodes, edges)
filter_of deleted event nodes edges = ([], [])
filter_of modified event nodes edges =
    let kept = keep (emitted event) nodes in
    (kept, keep (λ (e : IntraFileEdge). elem e.source_stable_id (ids kept)) edges)

unfoldable pub apply_diff_filter :
    FileChangedEvent → List ParsedNode → List IntraFileEdge → List ParsedNode × List IntraFileEdge
apply_diff_filter event nodes edges = filter_of event.diff_type event nodes edges
