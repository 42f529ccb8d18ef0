-- ===== src/Parser/Python.antt =====
-- services/parser/app/py_nodes.py: the nodes of a Python file. A text that is not UTF-8, and a name that
-- is missing in the tree, raise.
use text.Mathlib.Text.{starts_with}
use tersecontext.Prelude.{
  ℕ, zero, suc, ◌+◌, ◌-◌, ◌*◌, String, Bool, ◌&&◌, ◌||◌, Option, none, some, List, [], ◌∷◌, ◌++◌,
  ◌==◌, leb, if◌then◌else◌,
}
use tersecontext.Prelude.Dict
use tersecontext.Prelude.Dict.{Dict}
use tersecontext.Prelude.Effects.{Result, ok}
use tersecontext.Prelude.Results.{◌>>=◌, fold}
use tersecontext.Parser.Models.{ParsedNode, concat, stable_id, node_hash}
use tersecontext.Parser.Tree.{
  Node, Python, node_type, extent, named_children, child_by_field_name, of_type, text_of, text_at,
}

-- The characters of a text, counted, left out and taken.
abbrev pub len : String → ℕ
len String.[] = 0
len (String.◌∷◌ c s) = suc (len s)

abbrev pub skip : ℕ → String → String
skip zero s = s
skip (suc n) String.[] = String.[]
skip (suc n) (String.◌∷◌ c s) = skip n s

abbrev pub first : ℕ → String → String
first zero s = String.[]
first (suc n) String.[] = String.[]
first (suc n) (String.◌∷◌ c s) = String.◌∷◌ c (first n s)

-- `raw[n:-n]` for n > 0
abbrev pub inside : ℕ → String → String
inside n raw = skip n (first (len raw - n) raw)

abbrev pub ends_with : String → String → Bool
ends_with s q = skip (len s - len q) s == q

abbrev pub is_quoted_by : String → String → Bool
is_quoted_by q raw = starts_with raw q && ends_with raw q && leb (2 * len q) (len raw)

abbrev pub unquoted : List String → String → String
unquoted [] raw = raw
unquoted (q ∷ qs) raw =
    let rest = unquoted qs raw in if is_quoted_by q raw then inside (len q) raw else rest

abbrev pub quotes : List String
quotes = "\"\"\"" ∷ "'''" ∷ "\"" ∷ "'" ∷ []

abbrev pub or_else : {A : Type 0} → Option A → Option A → Option A
or_else none o = o
or_else (some a) o = some a

-- The string that the loop of `_get_docstring` returns at.
abbrev pub docstring_node : List Node → Option Node
docstring_node [] = none
docstring_node (n ∷ ns) =
    let later = docstring_node ns in
    if node_type n == "expression_statement"
    then or_else (of_type "string" (named_children n)) later
    else if node_type n == "comment"
    then later
    else none

-- What the loop has found before a method of a class or the file ends.
pub record Extraction : Type 0 where
  pub nodes : List ParsedNode
  pub fn_pairs : List (ParsedNode × Node)
  pub name_to_sid : Dict String

abbrev pub line_of : ℕ → ℕ
line_of row = row + 1

module _ (py : Python) (source : List ℕ) where
  abbrev pub string_text : Node → Option Node → Result String
  string_text expr (some content) = text_of py source content
  string_text expr none = do raw ← text_of py source expr; ok (unquoted quotes raw)

  abbrev pub doc_text : Option Node → Result String
  doc_text none = ok ""
  doc_text (some expr) = string_text expr (of_type "string_content" (named_children expr))

  unfoldable pub get_docstring : Option Node → Result String
  get_docstring none = ok ""
  get_docstring (some body) = doc_text (docstring_node (named_children body))

  abbrev pub text_or : String → Option Node → Result String
  text_or default none = ok default
  text_or default (some n) = text_of py source n

  abbrev pub with_return : String → Option Node → Result String
  with_return sig none = ok sig
  with_return sig (some n) = do t ← text_of py source n; ok (concat (sig ∷ " -> " ∷ t ∷ []))

  unfoldable pub get_signature : Node → String → Result String
  get_signature fn name = do
    params_text ← text_or "()" (child_by_field_name "parameters" fn)
    with_return (concat (name ∷ params_text ∷ [])) (child_by_field_name "return_type" fn)

  abbrev pub imported : Node → Option Node → Result String
  imported n none = text_of py source n
  imported n (some name_node) =
      if node_type name_node == "aliased_import"
      then elim (child_by_field_name "name" name_node) [
        | none ↦ text_of py source name_node
        | some inner ↦ text_of py source inner
      ]
      else text_of py source name_node

  abbrev pub imported_from : Node → Option Node → Result String
  imported_from n none = text_of py source n
  imported_from n (some module_node) = text_of py source module_node

  unfoldable pub get_import_name : Node → Result String
  get_import_name n =
      if node_type n == "import_statement"
      then imported n (child_by_field_name "name" n)
      else if node_type n == "import_from_statement"
      then imported_from n (child_by_field_name "module_name" n)
      else text_of py source n

  module _ (repo file_path : String) where
    -- An import or a class: no signature, and its name is its qualified name.
    abbrev pub plain_node : String → Node → String → String → String → ParsedNode
    plain_node type n name docstring body = record {
      stable_id = stable_id py repo file_path type name;
      node_hash = node_hash py name "" body;
      type = type;
      name = name;
      qualified_name = name;
      signature = "";
      docstring = docstring;
      body = body;
      line_start = line_of (extent n).start_row;
      line_end = line_of (extent n).end_row;
      parent_id = none;
    }

    -- A function or a method.
    abbrev pub code_node :
        String → Node → String → String → String → String → String → Option String → ParsedNode
    code_node type n name qname sig docstring body parent_id = record {
      stable_id = stable_id py repo file_path type qname;
      node_hash = node_hash py name sig body;
      type = type;
      name = name;
      qualified_name = qname;
      signature = sig;
      docstring = docstring;
      body = body;
      line_start = line_of (extent n).start_row;
      line_end = line_of (extent n).end_row;
      parent_id = parent_id;
    }

    unfoldable pub add_import : Node → Extraction → Result Extraction
    add_import n x = do
      name ← get_import_name n
      body ← text_of py source n
      ok (record x { nodes = x.nodes ++ plain_node "import" n name "" body ∷ [] })

    -- A function or method, with its pair for the edges.
    abbrev pub with_code : ParsedNode → Node → Dict String → Extraction → Extraction
    with_code pn n names x = record {
      nodes = x.nodes ++ pn ∷ [];
      fn_pairs = x.fn_pairs ++ (pn, n) ∷ [];
      name_to_sid = names;
    }

    unfoldable pub add_method : String → String → Node → Extraction → Result Extraction
    add_method cls_name cls_sid n x =
        if node_type n == "function_definition"
        then (do
          name ← text_at py source (child_by_field_name "name" n)
          let qname = concat (cls_name ∷ "." ∷ name ∷ [])
          sig ← get_signature n name
          docstring ← get_docstring (child_by_field_name "body" n)
          body ← text_of py source n
          let pn = code_node "method" n name qname sig docstring body (some cls_sid)
          let names = Dict.put qname pn.stable_id (Dict.put name pn.stable_id x.name_to_sid)
          ok (with_code pn n names x))
        else ok x

    abbrev pub add_methods : String → String → Option Node → Extraction → Result Extraction
    add_methods cls_name cls_sid none x = ok x
    add_methods cls_name cls_sid (some body) x =
        fold (add_method cls_name cls_sid) (named_children body) x

    unfoldable pub add_class : Node → Extraction → Result Extraction
    unfolding add_method
    add_class n x = do
      name ← text_at py source (child_by_field_name "name" n)
      let body_node = child_by_field_name "body" n
      docstring ← get_docstring body_node
      body ← text_of py source n
      let pn = plain_node "class" n name docstring body
      let x' : Extraction = record x {
        nodes = x.nodes ++ pn ∷ [];
        name_to_sid = Dict.put name pn.stable_id x.name_to_sid;
      }
      add_methods name pn.stable_id body_node x'

    unfoldable pub add_function : Node → Extraction → Result Extraction
    add_function n x = do
      name ← text_at py source (child_by_field_name "name" n)
      sig ← get_signature n name
      docstring ← get_docstring (child_by_field_name "body" n)
      body ← text_of py source n
      let pn = code_node "function" n name name sig docstring body none
      ok (with_code pn n (Dict.put name pn.stable_id x.name_to_sid) x)

    unfoldable pub add_child : Node → Extraction → Result Extraction
    unfolding add_import add_class add_function
    add_child n x =
        if node_type n == "import_statement" || node_type n == "import_from_statement"
        then add_import n x
        else if node_type n == "class_definition"
        then add_class n x
        else if node_type n == "function_definition"
        then add_function n x
        else ok x

    unfoldable pub extract_nodes : Node → Result Extraction
    unfolding add_child
    extract_nodes root =
        fold add_child (named_children root)
          (record { nodes = []; fn_pairs = []; name_to_sid = [] })
