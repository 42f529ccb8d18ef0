-- ===== src/Parser/Go.antt =====
-- services/parser/app/go_nodes.py: the nodes of a Go file. A declaration without a name is left out.
use text.Mathlib.Text.{starts_with}
use tersecontext.Prelude.{
  ℕ, zero, suc, String, Option, none, some, List, [], ◌∷◌, ◌++◌, ◌==◌, not, if◌then◌else◌,
}
use tersecontext.Prelude.Dict
use tersecontext.Prelude.Dict.{Dict}
use tersecontext.Prelude.Effects.{Result, ok}
use tersecontext.Prelude.Results.{◌>>=◌, fold}
use tersecontext.Parser.Models.{ParsedNode, concat}
use tersecontext.Parser.Python.{
  Extraction, skip, first, len, ends_with, text_or, plain_node, code_node, with_code,
}
use tersecontext.Parser.Tree.{
  Node, Python, node_type, named_children, child_by_field_name, of_type, text_of,
}

-- `s.lstrip(c)` and `s.strip(c)` of one character, on fuel for the characters of the text.
abbrev pub lstrip_n : ℕ → String → String → String
lstrip_n zero c s = s
lstrip_n (suc n) c s = let rest = lstrip_n n c (skip 1 s) in if starts_with s c then rest else s

abbrev pub rstrip_n : ℕ → String → String → String
rstrip_n zero c s = s
rstrip_n (suc n) c s = let rest = rstrip_n n c (first n s) in if ends_with s c then rest else s

abbrev pub lstrip : String → String → String
lstrip c s = lstrip_n (len s) c s

abbrev pub strip : String → String → String
strip c s = let t = lstrip c s in rstrip_n (len t) c t

abbrev pub comment_line : String → String
comment_line text = if starts_with text "//" then lstrip " " (skip 2 text) else text

-- "\n".join(lines)
abbrev pub join_lines : List String → String
join_lines [] = ""
join_lines (l ∷ []) = l
join_lines (l ∷ m ∷ ls) = concat (l ∷ "\n" ∷ join_lines (m ∷ ls) ∷ [])

-- What the loop has found before a declaration ends, and the declarations before it, the last one first.
pub record GoExtraction : Type 0 where
  pub found : Extraction
  pub struct_name_to_sid : Dict String
  pub siblings : List Node

module _ (py : Python) (source : List ℕ) where
  -- From the nearest comment back: what the loop of `_get_go_doc` collects, reversed.
  abbrev pub doc_lines : List Node → List String → Result (List String)
  doc_lines [] later = ok later
  doc_lines (sibling ∷ before) later =
      if node_type sibling == "comment"
      then (do t ← text_of py source sibling; doc_lines before (comment_line t ∷ later))
      else ok later

  -- The siblings are `prev_named_sibling`, again and again.
  unfoldable pub get_go_doc : List Node → Result String
  get_go_doc siblings = do lines ← doc_lines siblings []; ok (join_lines lines)

  abbrev pub with_result : String → Option Node → Result String
  with_result sig none = ok sig
  with_result sig (some n) = do t ← text_of py source n; ok (concat (sig ∷ " " ∷ t ∷ []))

  unfoldable pub get_func_signature : Node → String → Result String
  get_func_signature n name = do
    params ← text_or py source "()" (child_by_field_name "parameters" n)
    with_result (concat ("func " ∷ name ∷ params ∷ [])) (child_by_field_name "result" n)

  unfoldable pub get_method_signature : Node → String → Result String
  get_method_signature n name = do
    recv ← text_or py source "()" (child_by_field_name "receiver" n)
    params ← text_or py source "()" (child_by_field_name "parameters" n)
    with_result (concat ("func " ∷ recv ∷ " " ∷ name ∷ params ∷ []))
        (child_by_field_name "result" n)

  -- The node of the name in the type of a parameter.
  abbrev pub type_name_node : Option Node → Option Node
  type_name_node none = none
  type_name_node (some n) =
      if node_type n == "pointer_type"
      then of_type "type_identifier" (named_children n)
      else if node_type n == "type_identifier"
      then some n
      else none

  -- The node that the loop of `_get_receiver_type` returns at.
  abbrev pub receiver_node : List Node → Option Node
  receiver_node [] = none
  receiver_node (param ∷ params) =
      let later = receiver_node params in
      if node_type param == "parameter_declaration"
      then elim (type_name_node (child_by_field_name "type" param)) [
        | none ↦ later
        | some n ↦ some n
      ]
      else later

  abbrev pub text_if : Option Node → Result (Option String)
  text_if none = ok none
  text_if (some n) = do t ← text_of py source n; ok (some t)

  unfoldable pub get_receiver_type : Node → Result (Option String)
  get_receiver_type n = elim (child_by_field_name "receiver" n) [
    | none ↦ ok none
    | some receiver ↦ text_if (receiver_node (named_children receiver))
  ]

  module _ (repo file_path : String) where
    -- An import whose hash is taken of `hashed`.
    abbrev pub import_node : Node → String → String → String → ParsedNode
    import_node n name hashed body =
        record (plain_node py source repo file_path "import" n name "" body) {
          node_hash = (plain_node py source repo file_path "import" n name "" hashed).node_hash;
        }

    abbrev pub hashed_text : Option String → String → String
    hashed_text none body = body
    hashed_text (some whole) body = whole

    abbrev pub add_path :
        Option String → Node → Option Node → List ParsedNode → Result (List ParsedNode)
    add_path whole n none nodes = ok nodes
    add_path whole n (some path) nodes = do
      t ← text_of py source path
      body ← text_of py source n
      ok (nodes ++ import_node n (strip "\"" t) (hashed_text whole body) body ∷ [])

    -- A spec; `whole` is the text of the declaration where that is what is hashed.
    unfoldable pub add_spec : Option String → Node → List ParsedNode → Result (List ParsedNode)
    add_spec whole n nodes =
        if node_type n == "import_spec"
        then add_path whole n (child_by_field_name "path" n) nodes
        else ok nodes

    unfoldable pub add_specs : String → Node → List ParsedNode → Result (List ParsedNode)
    unfolding add_spec
    add_specs whole n nodes =
        if node_type n == "import_spec_list"
        then fold (add_spec none) (named_children n) nodes
        else add_spec (some whole) n nodes

    unfoldable pub extract_imports_go : Node → Result (List ParsedNode)
    unfolding add_specs
    extract_imports_go n =
        if node_type n == "import_declaration"
        then (do whole ← text_of py source n; fold (add_specs whole) (named_children n) [])
        else ok []

    abbrev pub kind_of : Node → Option String
    kind_of n =
        if node_type n == "struct_type"
        then some "struct"
        else if node_type n == "interface_type"
        then some "interface"
        else none

    abbrev pub add_kind :
        List Node → Node → String → Option String → List ParsedNode → Result (List ParsedNode)
    add_kind siblings n name none nodes = ok nodes
    add_kind siblings n name (some kind) nodes = do
      body ← text_of py source n
      docstring ← get_go_doc siblings
      ok (nodes ++ plain_node py source repo file_path kind n name docstring body ∷ [])

    abbrev pub add_named :
        List Node → Node → Option Node → Option Node → List ParsedNode → Result (List ParsedNode)
    add_named siblings n none type_node nodes = ok nodes
    add_named siblings n (some name_node) none nodes = ok nodes
    add_named siblings n (some name_node) (some type_node) nodes = do
      name ← text_of py source name_node
      add_kind siblings n name (kind_of type_node) nodes

    unfoldable pub add_type : List Node → Node → List ParsedNode → Result (List ParsedNode)
    add_type siblings n nodes =
        if node_type n == "type_spec"
        then add_named siblings n (child_by_field_name "name" n) (child_by_field_name "type" n)
            nodes
        else ok nodes

    unfoldable pub extract_type_decl_go : List Node → Node → Result (List ParsedNode)
    unfolding add_type
    extract_type_decl_go siblings n = fold (add_type siblings) (named_children n) []

    -- The nodes of a type declaration, with their names.
    abbrev pub with_types : List ParsedNode → GoExtraction → GoExtraction
    with_types [] x = x
    with_types (tn ∷ type_nodes) x = with_types type_nodes (record x {
      found = record x.found {
        nodes = x.found.nodes ++ tn ∷ [];
        name_to_sid = Dict.put tn.name tn.stable_id x.found.name_to_sid;
      };
      struct_name_to_sid =
          if tn.type == "struct"
          then Dict.put tn.name tn.stable_id x.struct_name_to_sid
          else x.struct_name_to_sid;
    })

    abbrev pub add_func : Node → Option Node → GoExtraction → Result GoExtraction
    add_func n none x = ok x
    add_func n (some name_node) x = do
      name ← text_of py source name_node
      sig ← get_func_signature n name
      docstring ← get_go_doc x.siblings
      body ← text_of py source n
      let pn = code_node py source repo file_path "function" n name name sig docstring body none
      let names = Dict.put name pn.stable_id x.found.name_to_sid
      ok (record x { found = with_code py source repo file_path pn n names x.found })

    abbrev pub qualified : Option String → String → String
    qualified none name = name
    qualified (some recv) name = if not (recv == "") then concat (recv ∷ "." ∷ name ∷ []) else name

    abbrev pub struct_of : Option String → Dict String → Option String
    struct_of none structs = none
    struct_of (some recv) structs = if not (recv == "") then Dict.get recv structs else none

    abbrev pub add_go_method : Node → Option Node → GoExtraction → Result GoExtraction
    add_go_method n none x = ok x
    add_go_method n (some name_node) x = do
      name ← text_of py source name_node
      recv ← get_receiver_type n
      let qname = qualified recv name
      sig ← get_method_signature n name
      docstring ← get_go_doc x.siblings
      body ← text_of py source n
      let parent_sid = struct_of recv x.struct_name_to_sid
      let pn =
          code_node py source repo file_path "method" n name qname sig docstring body parent_sid
      let names = Dict.put qname pn.stable_id (Dict.put name pn.stable_id x.found.name_to_sid)
      ok (record x { found = with_code py source repo file_path pn n names x.found })

    unfoldable pub add_declaration : Node → GoExtraction → Result GoExtraction
    unfolding extract_imports_go extract_type_decl_go
    add_declaration n x =
        if node_type n == "import_declaration"
        then (do
          imports ← extract_imports_go n
          ok (record x { found = record x.found { nodes = x.found.nodes ++ imports } }))
        else if node_type n == "type_declaration"
        then (do types ← extract_type_decl_go x.siblings n; ok (with_types types x))
        else if node_type n == "function_declaration"
        then add_func n (child_by_field_name "name" n) x
        else if node_type n == "method_declaration"
        then add_go_method n (child_by_field_name "name" n) x
        else ok x

    -- A declaration is the next one's sibling.
    unfoldable pub add_go_child : Node → GoExtraction → Result GoExtraction
    unfolding add_declaration
    add_go_child n x = do x' ← add_declaration n x; ok (record x' { siblings = n ∷ x'.siblings })

    unfoldable pub extract_nodes_go : Node → Result Extraction
    unfolding add_go_child
    extract_nodes_go root = do
      x ← fold add_go_child (named_children root) (record {
        found = record { nodes = []; fn_pairs = []; name_to_sid = [] };
        struct_name_to_sid = [];
        siblings = [];
      })
      ok x.found
