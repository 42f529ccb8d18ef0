-- ===== src/Parser/Named.antt =====
-- The functions and the names that an extraction keeps for the edges are among its nodes.
pub mod Go
use tersecontext.Prelude.{
  ℕ, String, Bool, true, false, ◌||◌, ◌≡◌, Option, none, some, List, [], ◌∷◌, ◌++◌, ◌==◌,
  map-append, ap, refl, elem, All, All-append, elem-append, arith, eq_iff, map, Bool-cases, inl,
  inr, if◌then◌else◌,
}
use tersecontext.Prelude.Dict
use tersecontext.Prelude.Dict.{Dict}
use tersecontext.Prelude.Effects.{Result, ok}
use tersecontext.Prelude.Results.{
  if-Holds, Holds, Holds-bind, Holds-chain, Holds-ok, fold-All, fold-Holds,
}
use tersecontext.Parser.Models.{ParsedNode, IntraFileEdge, calls}
use tersecontext.Parser.Tree.{
  Node, Python, node_type, named_children, child_by_field_name, text_of, text_at,
}
use tersecontext.Parser.Python.{
  Extraction, with_code, get_import_name, get_signature, get_docstring, add_import, add_method,
  add_methods, add_class, add_function, add_child, extract_nodes,
}
use tersecontext.Parser.Edges.{
  ids, is_target, has_edge, add_target, add_calls, add_pair, infer_with, infer_calls_edges,
  infer_calls_edges_go, extract, extract_go,
}

abbrev pub IsIn : List ParsedNode → String → Type 0
IsIn nodes sid = elem sid (ids nodes) ≡ true

abbrev pub NamesAreIn : List ParsedNode → Dict String → Type 0
NamesAreIn nodes names = (name sid : String) → Dict.get name names ≡ some sid → IsIn nodes sid

-- The functions and the targets of names are among the nodes.
pub record IsClosed (x : Extraction) : Type 0 where
  pub fn_nodes : All (λ (p : ParsedNode × Node). IsIn x.nodes p.0.stable_id) x.fn_pairs
  pub targets : NamesAreIn x.nodes x.name_to_sid

IsIn-grow :
    (nodes more : List ParsedNode) (sid : String) → IsIn nodes sid → IsIn (nodes ++ more) sid
IsIn-grow nodes more sid h =
    rw (map-append (λ (n : ParsedNode). n.stable_id) nodes more)
      (rw (elem-append sid (ids nodes) (ids more)) (rw h refl))

IsIn-last : (nodes : List ParsedNode) (n : ParsedNode) → IsIn (nodes ++ n ∷ []) n.stable_id
IsIn-last [] n = ground (arith, eq_iff n.stable_id n.stable_id)
IsIn-last (m ∷ nodes) n = rw (IsIn-last nodes n) (ground arith)

NamesAreIn-put :
    (nodes : List ParsedNode) (names : Dict String) (k s : String)
    → IsIn nodes s
    → NamesAreIn nodes names
    → NamesAreIn nodes (Dict.put k s names)
NamesAreIn-put nodes names k s h hn name sid e = elim (Bool-cases (k == name)) [
  | inl t ↦ ground (arith, Dict.get-put k name s names)
  | inr t ↦ hn name sid (ground (arith, Dict.get-put k name s names))
]

fn_nodes-grow :
    (nodes more : List ParsedNode) (pairs : List (ParsedNode × Node))
    → All (λ (p : ParsedNode × Node). IsIn nodes p.0.stable_id) pairs
    → All (λ (p : ParsedNode × Node). IsIn (nodes ++ more) p.0.stable_id) pairs
fn_nodes-grow nodes more [] h = tt
fn_nodes-grow nodes more (p ∷ pairs) h =
    (IsIn-grow nodes more p.0.stable_id h.0, fn_nodes-grow nodes more pairs h.1)

pub nothing-IsClosed : IsClosed (record { nodes = []; fn_pairs = []; name_to_sid = [] })
unfolding Dict.get
nothing-IsClosed = record { fn_nodes = tt; targets = λ name sid e. ground arith }

-- More nodes, and no name of another node.
pub grow-IsClosed :
    (more : List ParsedNode) (x : Extraction)
    → IsClosed x
    → IsClosed (record x { nodes = x.nodes ++ more })
grow-IsClosed more x h = record {
  fn_nodes = fn_nodes-grow x.nodes more x.fn_pairs h.fn_nodes;
  targets = λ name sid e. IsIn-grow x.nodes more sid (h.targets name sid e);
}

-- A new name for a node of the file.
name-IsClosed :
    (k s : String) (x : Extraction)
    → IsIn x.nodes s
    → IsClosed x
    → IsClosed (record x { name_to_sid = Dict.put k s x.name_to_sid })
name-IsClosed k s x hs h = record {
  fn_nodes = h.fn_nodes;
  targets = NamesAreIn-put x.nodes x.name_to_sid k s hs h.targets;
}

-- A node with its name.
pub named-IsClosed :
    (k : String) (n : ParsedNode) (x : Extraction)
    → IsClosed x
    → IsClosed
        (record x { nodes = x.nodes ++ n ∷ []; name_to_sid = Dict.put k n.stable_id x.name_to_sid })
named-IsClosed k n x h =
    name-IsClosed k n.stable_id (record x { nodes = x.nodes ++ n ∷ [] }) (IsIn-last x.nodes n)
      (grow-IsClosed (n ∷ []) x h)

-- A node with its name and its pair.
pub code-IsClosed :
    (k : String) (n : ParsedNode) (t : Node) (x : Extraction)
    → IsClosed x
    → IsClosed (record {
      nodes = x.nodes ++ n ∷ [];
      fn_pairs = x.fn_pairs ++ (n, t) ∷ [];
      name_to_sid = Dict.put k n.stable_id x.name_to_sid;
    })
code-IsClosed k n t x h =
    let named = named-IsClosed k n x h in
    record {
      fn_nodes =
          All-append (λ (p : ParsedNode × Node). IsIn (x.nodes ++ n ∷ []) p.0.stable_id) x.fn_pairs
            ((n, t) ∷ []) named.fn_nodes (IsIn-last x.nodes n, tt);
      targets = named.targets;
    }

pub code2-IsClosed :
    (j k : String) (n : ParsedNode) (t : Node) (x : Extraction)
    → IsClosed x
    → IsClosed (record {
      nodes = x.nodes ++ n ∷ [];
      fn_pairs = x.fn_pairs ++ (n, t) ∷ [];
      name_to_sid = Dict.put j n.stable_id (Dict.put k n.stable_id x.name_to_sid);
    })
code2-IsClosed j k n t x h =
    name-IsClosed j n.stable_id
      (record {
        nodes = x.nodes ++ n ∷ [];
        fn_pairs = x.fn_pairs ++ (n, t) ∷ [];
        name_to_sid = Dict.put k n.stable_id x.name_to_sid;
      })
      (IsIn-last x.nodes n) (code-IsClosed k n t x h)

module _ (py : Python) (source : List ℕ) (repo file_path : String) where
  add_import-IsClosed :
      (n : Node) (x : Extraction)
      → IsClosed x
      → Holds IsClosed (add_import py source repo file_path n x)
  unfolding add_import
  add_import-IsClosed n x h = search (Holds-bind, grow-IsClosed)

  add_method-IsClosed :
      (cls sid : String) (n : Node) (x : Extraction)
      → IsClosed x
      → Holds IsClosed (add_method py source repo file_path cls sid n x)
  unfolding add_method
  add_method-IsClosed cls sid n x h = elim (Bool-cases (node_type n == "function_definition")) [
    | inl e ↦ rw e (search (Holds-bind, code2-IsClosed))
    | inr e ↦ rw e h
  ]

  add_methods-IsClosed :
      (cls sid : String) (o : Option Node) (x : Extraction)
      → IsClosed x
      → Holds IsClosed (add_methods py source repo file_path cls sid o x)
  add_methods-IsClosed cls sid none x h = h
  add_methods-IsClosed cls sid (some body) x h =
      fold-Holds IsClosed (add_method py source repo file_path cls sid)
        (add_method-IsClosed cls sid) (named_children body) x h

  add_class-IsClosed :
      (n : Node) (x : Extraction)
      → IsClosed x
      → Holds IsClosed (add_class py source repo file_path n x)
  unfolding add_class
  add_class-IsClosed n x h = search (Holds-bind, add_methods-IsClosed, named-IsClosed)

  add_function-IsClosed :
      (n : Node) (x : Extraction)
      → IsClosed x
      → Holds IsClosed (add_function py source repo file_path n x)
  unfolding add_function
  add_function-IsClosed n x h = search (Holds-bind, code-IsClosed)

  add_child-IsClosed :
      (n : Node) (x : Extraction)
      → IsClosed x
      → Holds IsClosed (add_child py source repo file_path n x)
  unfolding add_child
  add_child-IsClosed n x h =
      search (if-Holds, add_import-IsClosed, add_class-IsClosed, add_function-IsClosed)

  pub extract_nodes-IsClosed :
      (root : Node) → Holds IsClosed (extract_nodes py source repo file_path root)
  unfolding extract_nodes
  extract_nodes-IsClosed root =
      fold-Holds IsClosed (add_child py source repo file_path) add_child-IsClosed
        (named_children root) _ nothing-IsClosed
