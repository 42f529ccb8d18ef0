-- ===== src/Resolver.antt =====
-- services/symbol-resolver/app/resolver.py and consumer.py: the import statements of a parsed file
-- become IMPORTS edges or pending references. Neo4j and Redis may fail at every command.
pub mod Process
pub mod Linked
pub mod Queues
mod Examples
use Prim.Native.Char.{code}
use Prim.Native.String
use Prim.Native.String.{◌++◌ as ◌<>◌}
use tersecontext.Prelude.{
  ℕ, zero, suc, ◌-◌, String, Bool, true, false, ◌&&◌, Option, none, some, List, [], ◌∷◌, ◌++◌, ◌==◌,
  keep, eqb, if◌then◌else◌,
}
use tersecontext.Prelude.Text.{codes, at_start, anything, somewhere}
use tersecontext.Prelude.Dict
use tersecontext.Prelude.Dict.{Dict}
use tersecontext.Prelude.Effects.{
  Exception, key_error, value_error, failure, Result, ok, raise, Action, pure, throw, try_except,
  continue, for_each, ◌>>=◌, ◌>>◌,
}
use tersecontext.Graph.Store.{NodeProps, Node, static, ImportTarget, node, pkg, Import, Graph}
use tersecontext.Graph.Write.{is_node}
use tersecontext.Pending.{PendingRef, Entry, malformed, ref, push_pending, is_expired, tried_again}

-- models.py
pub record ParsedNode : Type 0 where
  pub stable_id : String
  pub type : String
  pub name : String
  pub qualified_name : String
  pub body : String

pub record ParsedFileEvent : Type 0 where
  pub repo : String
  pub commit_sha : String
  pub file_path : String
  pub language : String
  pub nodes : List ParsedNode

-- The statements of Python's `ast`, as far as they are looked at.
pub data Statement : Type 0 where
  import_from : (module_name : Option String) (level : ℕ) (names : List String) → Statement
  import_names : List String → Statement
  other : Statement

-- The dictionary that `parse_import_body` returns.
pub data ImportInfo : Type 0 where
  from_module : (module_name : String) (dots : ℕ) (names : List String) → ImportInfo
  plain : List String → ImportInfo

-- `stmt.module or ""`
abbrev pub or_empty : Option String → String
or_empty none = ""
or_empty (some s) = s

abbrev pub info_of : Statement → ImportInfo
info_of (import_from module_name level names) = from_module (or_empty module_name) level names
info_of (import_names names) = plain names
info_of other = plain []

-- `tree` is the body of the tree of `ast.parse`, or `none` for a SyntaxError.
abbrev pub parse_import_body : Option (List Statement) → ImportInfo
parse_import_body none = plain []
parse_import_body (some []) = plain []
parse_import_body (some (stmt ∷ stmts)) = info_of stmt

-- `module.replace(".", "/")`
abbrev pub dots_to_slashes : String → String
dots_to_slashes String.[] = String.[]
dots_to_slashes (String.◌∷◌ c s) =
    let rest = dots_to_slashes s in
    if eqb (code c) b'.' then String.◌∷◌ "/" rest else String.◌∷◌ c rest

-- `parts[:-1]`, and `parts.pop()` where there are parts
abbrev pub but_last : List String → List String
but_last [] = []
but_last (p ∷ []) = []
but_last (p ∷ q ∷ parts) = p ∷ but_last (q ∷ parts)

abbrev pub pop_times : ℕ → List String → List String
pop_times zero parts = parts
pop_times (suc n) parts = pop_times n (but_last parts)

-- "/".join(parts) + "/", or "" of no parts
abbrev pub directory : List String → String
directory [] = ""
directory (p ∷ parts) = p <> "/" <> directory parts

-- `parts` is `PurePosixPath(file_path).parts`
unfoldable pub compute_path_hint : String → List String → ℕ → String
compute_path_hint module_name parts zero = dots_to_slashes module_name
compute_path_hint module_name parts (suc dots) = directory (pop_times dots (but_last parts))

-- The graph, the lists pending_refs:{repo}, the messages acknowledged, and the number of commands sent.
pub record State (F : Type 0) : Type 0 where
  pub graph : Graph F
  pub pending : Dict (List Entry)
  pub acked : List String
  pub commands : ℕ

abbrev pub or_nil : Option (List Entry) → List Entry
or_nil none = []
or_nil (some entries) = entries

abbrev pub queue : String → Dict (List Entry) → List Entry
queue repo pending = or_nil (Dict.get repo pending)

-- What the resolver takes from elsewhere: `ast.parse`, the parts of a path, pydantic, and the row that
-- Neo4j returns where a query with LIMIT 1 matches several nodes.
pub record World : Type 0 where
  pub ast : String → Option (List Statement)
  pub parts : String → List String
  pub event_of_json : String → Option ParsedFileEvent
  pub pick : String → List String → String

-- `text CONTAINS part`
abbrev pub contains : String → String → Bool
contains text part = somewhere (at_start anything (codes part)) (codes text)

abbrev pub props_pass : (NodeProps → Bool) → Option NodeProps → Bool
props_pass test none = false
props_pass test (some p) = test p

module _ {F : Type 0} where
  abbrev pub is_active : Node F → Bool
  is_active n = elim n.active [ none ↦ false | some b ↦ b ]

  abbrev pub matches : (NodeProps → Bool) → Node F → Bool
  matches test n = is_active n && props_pass test n.props

  -- The ids of the active nodes whose properties pass a test.
  abbrev pub matching : (NodeProps → Bool) → Dict (Node F) → List String
  matching test [] = []
  matching test ((id, n) ∷ nodes) =
      let rest = matching test nodes in if matches test n then id ∷ rest else rest

abbrev pub same_target : ImportTarget → ImportTarget → Bool
same_target (node a) (node b) = a == b
same_target (node a) (pkg p r) = false
same_target (pkg p r) (node b) = false
same_target (pkg p r) (pkg q s) = p == q && r == s

-- MERGE (a)-[r:IMPORTS]->(target) SET r.source = 'static', r.updated_at = datetime()
abbrev pub import_of : ℕ → String → ImportTarget → Import
import_of now a target = record {
  source_id = a;
  target = target;
  source = some static;
  updated_at = some now;
}

unfoldable pub merge_import : ℕ → String → ImportTarget → List Import → List Import
merge_import now a target [] = import_of now a target ∷ []
merge_import now a target (i ∷ imports) =
    let rest = merge_import now a target imports in
    if i.source_id == a && same_target i.target target
    then import_of now a target ∷ imports
    else i ∷ rest
