-- ===== src/Parser/Named/Go.antt =====
-- The same of an extraction from a Go file.
use tersecontext.Prelude.{ℕ, String, Option, none, some, List, [], ◌∷◌, ◌++◌}
use tersecontext.Prelude.Effects.{ok}
use tersecontext.Prelude.Results.{◌>>=◌, Holds, Holds-bind, Holds-chain, fold-Holds, if-Holds}
use tersecontext.Parser.Models.{ParsedNode}
use tersecontext.Parser.Tree.{Node, Python, named_children}
use tersecontext.Parser.Named.{
  IsClosed, nothing-IsClosed, grow-IsClosed, named-IsClosed, code-IsClosed, code2-IsClosed,
}
use tersecontext.Parser.Go.{
  GoExtraction, with_types, extract_imports_go, extract_type_decl_go, add_func, add_go_method,
  add_declaration, add_go_child, extract_nodes_go,
}

module _ (py : Python) (source : List ℕ) (repo file_path : String) where
  with_types-IsClosed :
      (types : List ParsedNode) (x : GoExtraction)
      → IsClosed x.found
      → IsClosed (with_types py source repo file_path types x).found
  with_types-IsClosed [] x h = h
  with_types-IsClosed (tn ∷ types) x h =
      with_types-IsClosed types _ (named-IsClosed tn.name tn x.found h)

  abbrev FoundIsClosed : GoExtraction → Type 0
  FoundIsClosed x = IsClosed x.found

  add_func-IsClosed :
      (n : Node) (o : Option Node) (x : GoExtraction)
      → IsClosed x.found
      → Holds FoundIsClosed (add_func py source repo file_path n o x)
  add_func-IsClosed n none x h = h
  add_func-IsClosed n (some name_node) x h = search (Holds-bind, code-IsClosed)

  add_go_method-IsClosed :
      (n : Node) (o : Option Node) (x : GoExtraction)
      → IsClosed x.found
      → Holds FoundIsClosed (add_go_method py source repo file_path n o x)
  add_go_method-IsClosed n none x h = h
  add_go_method-IsClosed n (some name_node) x h = search (Holds-bind, code2-IsClosed) depth 9

  add_imports-IsClosed :
      (n : Node) (x : GoExtraction)
      → IsClosed x.found
      → Holds FoundIsClosed (
          extract_imports_go py source repo file_path n >>= λ imports.
          ok (record x { found = record x.found { nodes = x.found.nodes ++ imports } }))
  add_imports-IsClosed n x h = search (Holds-bind, grow-IsClosed)

  add_types-IsClosed :
      (n : Node) (x : GoExtraction)
      → IsClosed x.found
      → Holds FoundIsClosed (
          extract_type_decl_go py source repo file_path x.siblings n >>= λ types.
          ok (with_types py source repo file_path types x))
  add_types-IsClosed n x h = search (Holds-bind, with_types-IsClosed)

  add_declaration-IsClosed :
      (n : Node) (x : GoExtraction)
      → IsClosed x.found
      → Holds FoundIsClosed (add_declaration py source repo file_path n x)
  unfolding add_declaration
  add_declaration-IsClosed n x h = search (
    if-Holds, add_imports-IsClosed, add_types-IsClosed, add_func-IsClosed, add_go_method-IsClosed,
  )

  add_go_child-IsClosed :
      (n : Node) (x : GoExtraction)
      → IsClosed x.found
      → Holds FoundIsClosed (add_go_child py source repo file_path n x)
  unfolding add_go_child
  add_go_child-IsClosed n x h =
      Holds-chain FoundIsClosed FoundIsClosed (add_declaration py source repo file_path n x)
        (λ x'. ok (record x' { siblings = n ∷ x'.siblings })) (add_declaration-IsClosed n x h)
        (λ x' h'. h')

  pub extract_nodes_go-IsClosed :
      (root : Node) → Holds IsClosed (extract_nodes_go py source repo file_path root)
  unfolding extract_nodes_go
  extract_nodes_go-IsClosed root =
      Holds-chain IsClosed FoundIsClosed _ (λ (x : GoExtraction). ok x.found)
        (fold-Holds FoundIsClosed (add_go_child py source repo file_path) add_go_child-IsClosed
          (named_children root) _ nothing-IsClosed)
        (λ x' h'. h')
