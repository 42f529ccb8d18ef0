-- ===== src/Parser/Models.antt =====
-- services/parser/app/models.py, and the identities of py_stable_id.py.
use Prim.Native.String.{◌++◌ as ◌<>◌}
use tersecontext.Prelude.{ℕ, String, Option, List, [], ◌∷◌}
use tersecontext.Parser.Tree.{Python}

pub data DiffType : Type 0 where
  added modified deleted full_rescan : DiffType

pub record FileChangedEvent : Type 0 where
  pub repo : String
  pub commit_sha : String
  pub path : String
  pub language : String
  pub diff_type : DiffType
  pub changed_nodes : List String
  pub added_nodes : List String
  pub deleted_nodes : List String

pub record ParsedNode : Type 0 where
  pub stable_id : String
  pub node_hash : String
  pub type : String
  pub name : String
  pub qualified_name : String
  pub signature : String
  pub docstring : String
  pub body : String
  pub line_start : ℕ
  pub line_end : ℕ
  pub parent_id : Option String

pub data EdgeType : Type 0 where
  calls : EdgeType

pub record IntraFileEdge : Type 0 where
  pub source_stable_id : String
  pub target_stable_id : String
  pub type : EdgeType

pub record ParsedFileEvent : Type 0 where
  pub file_path : String
  pub language : String
  pub repo : String
  pub commit_sha : String
  pub nodes : List ParsedNode
  pub intra_file_edges : List IntraFileEdge
  pub deleted_nodes : List String

-- An f-string, by its parts.
abbrev pub concat : List String → String
concat [] = ""
concat (s ∷ ss) = s <> concat ss

module _ (py : Python) where
  unfoldable pub sha256 : String → String
  sha256 s = concat ("sha256:" ∷ py.sha256_hexdigest s ∷ [])

  unfoldable pub stable_id : String → String → String → String → String
  unfolding sha256
  stable_id repo file_path node_type qualified_name =
      sha256 (concat (repo ∷ ":" ∷ file_path ∷ ":" ∷ node_type ∷ ":" ∷ qualified_name ∷ []))

  unfoldable pub node_hash : String → String → String → String
  unfolding sha256
  node_hash name signature body = sha256 (concat (name ∷ signature ∷ body ∷ []))
