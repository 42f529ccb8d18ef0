-- ===== src/Watcher/Models.antt =====
-- services/repo-watcher/app/models.py and what the watcher asks of git and of the parser.
use tersecontext.Prelude.{ℕ, String, Option, List}
use tersecontext.Prelude.Effects.{Result}

pub data DiffType : Type 0 where
  added modified deleted full_rescan : DiffType

pub record FileChangedEvent : Type 0 where
  pub repo : String
  pub commit_sha : String
  pub path : String
  pub language : String
  pub diff_type : DiffType
  pub changed_nodes : List String
  pub added_nodes : List String
  pub deleted_nodes : List String

pub record ParsedNode : Type 0 where
  pub stable_id : String
  pub node_hash : String
  pub type : String
  pub name : String
  pub qualified_name : String
  pub signature : String
  pub docstring : String
  pub body : String
  pub line_start : ℕ
  pub line_end : ℕ
  pub parent_id : Option String

-- A line of `git diff --name-status`, split at its tabs.
abbrev pub StatusLine : Type 0
StatusLine = String × List String

-- The commands of git in a repository; `none` is an exit code other than 0. Outputs are given as lines.
-- `suffix` is `Path(p).suffix`, and `extract` the tree-sitter parser with the extraction of the
-- nodes of one file; a `SyntaxError` counts as a `ValueError` there.
pub record Tools : Type 0 where
  pub rev_parse : Option String
  pub ls_files : Option (List String)
  pub name_status : String → String → Option (List StatusLine)
  pub show : String → String → Option (List ℕ)
  pub suffix : String → String
  pub extract : List ℕ → String → String → Result (List ParsedNode)
