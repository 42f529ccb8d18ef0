-- ===== src/Graph/Write.antt =====
-- services/graph-writer/app/writer.py and the writes of services/symbol-resolver/app/resolver.py.
pub mod Tombstone
use tersecontext.Prelude.{
  ℕ, String, Bool, true, false, ◌&&◌, ◌||◌, not, Option, none, some, List, [], ◌∷◌, ◌==◌, elem,
  if◌then◌else◌,
}
use tersecontext.Prelude.Dict
use tersecontext.Prelude.Dict.{Dict}
use tersecontext.Graph.Store.{
  NodeProps, Node, Provenance, static, Rel, ImportTarget, node, pkg, Import, Graph, merge_rel,
}

-- models.py: an embedded node, and what the parser knew of a node.
pub record EmbeddedNode : Type 0 where
  pub stable_id : String
  pub embed_text : String
  pub node_hash : String

pub record ParsedNode : Type 0 where
  pub stable_id : String
  pub type : String
  pub name : String
  pub qualified_name : String
  pub signature : String
  pub docstring : String
  pub body : String

abbrev pub NodeRecord : Type 0
NodeRecord = String × NodeProps

module _ (file_path language repo : String) where
  abbrev pub props_of : EmbeddedNode → ParsedNode → NodeProps
  props_of en pn = record {
    name = pn.name;
    type = pn.type;
    signature = pn.signature;
    docstring = pn.docstring;
    body = pn.body;
    file_path = file_path;
    qualified_name = if pn.qualified_name == "" then pn.name else pn.qualified_name;
    language = language;
    repo = repo;
    embed_text = en.embed_text;
    node_hash = en.node_hash;
  }

-- `{n.stable_id: n for n in parsed_event.nodes}`
unfoldable pub by_id : List ParsedNode → Dict ParsedNode → Dict ParsedNode
by_id [] d = d
by_id (n ∷ nodes) d = by_id nodes (Dict.put n.stable_id n d)

-- Nodes that are not in the parsed cache are skipped.
unfoldable pub build_node_records :
    List EmbeddedNode → Dict ParsedNode → String → String → String → List NodeRecord
build_node_records [] parsed file_path language repo = []
build_node_records (en ∷ ens) parsed file_path language repo =
    let rest = build_node_records ens parsed file_path language repo in
    elim (Dict.get en.stable_id parsed) [
      | none ↦ rest
      | some pn ↦ (en.stable_id, props_of file_path language repo en pn) ∷ rest
    ]

abbrev pub set_static : ℕ → Rel → Rel
set_static now r = record r { source = some static; updated_at = some now }

module _ {F : Type 0} where
  abbrev pub blank : Node F
  blank = record {
    props = none;
    active = none;
    updated_at = none;
    deleted_at = none;
    observed_calls = none;
    avg_latency_ms = none;
    branch_coverage = none;
    last_traced_at = none;
  }

  abbrev pub or_blank : Option (Node F) → Node F
  or_blank none = blank
  or_blank (some n) = n

  abbrev pub is_node : String → Graph F → Bool
  is_node id g = Dict.has id g.nodes

  -- UPSERT_NODES_QUERY, row by row
  unfoldable pub upsert_nodes : ℕ → List NodeRecord → Graph F → Graph F
  upsert_nodes now [] g = g
  upsert_nodes now ((id, props) ∷ records) g =
      let old = or_blank (Dict.get id g.nodes) in
      let new = record old { props = some props; active = some true; updated_at = some now } in
      upsert_nodes now records (record g { nodes = Dict.put id new g.nodes })

  -- UPSERT_EDGES_QUERY, row by row; a row with an unknown end matches nothing
  unfoldable pub upsert_edges : ℕ → List (String × String) → Graph F → Graph F
  upsert_edges now [] g = g
  upsert_edges now ((a, b) ∷ edges) g = upsert_edges now edges (
      if is_node a g && is_node b g
      then record g { calls = merge_rel a b (set_static now) g.calls }
      else g)

  -- `WHERE n.stable_id IN $stable_ids SET n.active = false, n.deleted_at = datetime()`
  abbrev pub deactivate : ℕ → List String → Dict (Node F) → Dict (Node F)
  deactivate now ids [] = []
  deactivate now ids ((id, n) ∷ nodes) =
      let rest = deactivate now ids nodes in
      (if elem id ids
        then (id, record n { active = some false; deleted_at = some now })
        else (id, n))
      ∷ rest

-- Does some edge go out of the node?
abbrev pub has_out_call : String → List Rel → Bool
has_out_call id [] = false
has_out_call id (r ∷ rels) = r.source_id == id || has_out_call id rels

abbrev pub has_out_import : String → List Import → Bool
has_out_import id [] = false
has_out_import id (i ∷ imports) = i.source_id == id || has_out_import id imports

-- The nodes that reach the second half of TOMBSTONE_QUERY: `MATCH (n)-[r]->()` keeps a row for n
-- only if n is in the list, is in the graph and has an edge going out.
abbrev pub is_cleared : {F : Type 0} → List String → Graph F → String → Bool
is_cleared ids g id =
    elem id ids && is_node id g && (has_out_call id g.calls || has_out_import id g.imports)

abbrev pub drop_calls : (String → Bool) → List Rel → List Rel
drop_calls cleared [] = []
drop_calls cleared (r ∷ rels) =
    let rest = drop_calls cleared rels in
    if cleared r.source_id || cleared r.target_id then rest else r ∷ rest

abbrev pub clears_target : (String → Bool) → ImportTarget → Bool
clears_target cleared (node id) = cleared id
clears_target cleared (pkg name repo) = false

abbrev pub drop_imports : (String → Bool) → List Import → List Import
drop_imports cleared [] = []
drop_imports cleared (i ∷ imports) =
    let rest = drop_imports cleared imports in
    if cleared i.source_id || clears_target cleared i.target then rest else i ∷ rest

-- TOMBSTONE_QUERY: the nodes are deactivated; of those with an edge going out, all edges are
-- deleted, first the ones going out and then the ones coming in.
unfoldable pub tombstone : {F : Type 0} → ℕ → List String → Graph F → Graph F
tombstone now ids g = record {
  nodes = deactivate now ids g.nodes;
  calls = drop_calls (is_cleared ids g) g.calls;
  imports = drop_imports (is_cleared ids g) g.imports;
}
