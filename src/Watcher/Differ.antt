-- ===== src/Watcher/Differ.antt =====
-- services/repo-watcher/app/differ.py: the supported files of a repository, the files that changed
-- between two commits, and the nodes that changed in a file.
pub mod Exact
use tersecontext.Prelude.{
  ℕ, String, Bool, true, false, ◌&&◌, not, Option, none, some, List, [], ◌∷◌, ◌==◌, eqb,
  if◌then◌else◌,
}
use tersecontext.Prelude.Dict
use tersecontext.Prelude.Dict.{Dict}
use tersecontext.Prelude.Text.{codes}
use tersecontext.Prelude.Effects.{
  Exception, key_error, value_error, failure, cancelled, Result, ok, raise,
}
use tersecontext.Watcher.Models.{DiffType, added, modified, deleted, ParsedNode, StatusLine, Tools}

-- LANGUAGE_MAP.get
unfoldable pub language_of : String → Option String
language_of s =
    if s == ".py"
    then some "python"
    else if s == ".go"
    then some "go"
    else if s == ".ts"
    then some "typescript"
    else if s == ".tsx"
    then some "typescript"
    else none

abbrev pub is_some : {A : Type 0} → Option A → Bool
is_some none = false
is_some (some a) = true

-- `{"A": "added", ...}.get(status[0], "modified")`
abbrev pub diff_type_of : ℕ → DiffType
diff_type_of c = if eqb c b'A' then added else if eqb c b'D' then deleted else modified

-- `paths[-1]`
abbrev pub last_path : List String → Option String
last_path [] = none
last_path (p ∷ []) = some p
last_path (p ∷ q ∷ ps) = last_path (q ∷ ps)

abbrev pub first_code : List ℕ → Option ℕ
first_code [] = none
first_code (c ∷ cs) = some c

abbrev pub Change : Type 0
Change = String × DiffType

abbrev pub prepend : Change → Result (List Change) → Result (List Change)
prepend c (ok cs) = ok (c ∷ cs)
prepend c (raise e) = raise e

module _ (tools : Tools) where
  abbrev pub detect_language : String → Option String
  detect_language file_path = language_of (tools.suffix file_path)

  abbrev pub supported : List String → List String
  supported [] = []
  supported (f ∷ files) =
      let rest = supported files in
      if not (f == "") && is_some (detect_language f) then f ∷ rest else rest

  unfoldable pub get_all_files : Result (List String)
  get_all_files = elim tools.ls_files [
    | none ↦ raise (failure "git ls-files")
    | some files ↦ ok (supported files)
  ]

  -- A line with a path; an empty status has no first character.
  abbrev pub change_of : String → String → Result (List Change) → Result (List Change)
  change_of status path rest =
      if is_some (detect_language path)
      then elim (first_code (codes status)) [
        | none ↦ raise (failure "IndexError")
        | some c ↦ prepend (path, diff_type_of c) rest
      ]
      else rest

  abbrev pub is_blank : StatusLine → Bool
  is_blank (status, []) = status == ""
  is_blank (status, p ∷ ps) = false

  -- The loop over the lines of the diff.
  unfoldable pub changes : List StatusLine → Result (List Change)
  changes [] = ok []
  changes (line ∷ lines) =
      let rest = changes lines in
      if is_blank line then rest else elim (last_path line.1) [
        | none ↦ raise (failure "IndexError")
        | some path ↦ change_of line.0 path rest
      ]

  unfoldable pub get_changed_files : String → String → Result (List Change)
  unfolding changes
  get_changed_files prev_sha current_sha = elim (tools.name_status prev_sha current_sha) [
    | none ↦ raise (failure "git diff")
    | some lines ↦ changes lines
  ]

  abbrev pub git_show : String → String → List ℕ
  git_show sha file_path = elim (tools.show sha file_path) [ none ↦ [] | some content ↦ content ]

  -- `except (ValueError, SyntaxError): return []`
  abbrev pub or_none : Result (List ParsedNode) → Result (List ParsedNode)
  or_none (ok nodes) = ok nodes
  or_none (raise (value_error t)) = ok []
  or_none (raise (key_error t)) = raise (key_error t)
  or_none (raise (failure t)) = raise (failure t)
  or_none (raise cancelled) = raise cancelled

  abbrev pub is_python : Option String → Bool
  is_python none = false
  is_python (some l) = l == "python"

  unfoldable pub parse_nodes : List ℕ → String → String → Result (List ParsedNode)
  parse_nodes content file_path repo =
      if is_python (detect_language file_path)
      then or_none (tools.extract content repo file_path)
      else ok []

-- `{n.stable_id: n.node_hash for n in nodes}`
unfoldable pub hashes : List ParsedNode → Dict String → Dict String
hashes [] d = d
hashes (n ∷ nodes) d = hashes nodes (Dict.put n.stable_id n.node_hash d)

abbrev pub differs : String → Option String → Bool
differs h none = false
differs h (some g) = not (g == h)

-- `[sid for sid, h in curr.items() if sid in prev and prev[sid] != h]`
unfoldable pub changed_in : Dict String → Dict String → List String
changed_in prev [] = []
changed_in prev ((sid, h) ∷ curr) =
    let rest = changed_in prev curr in if differs h (Dict.get sid prev) then sid ∷ rest else rest

-- `[sid for sid in d if sid not in other]`
unfoldable pub missing_in : Dict String → Dict String → List String
missing_in other [] = []
missing_in other ((sid, h) ∷ d) =
    let rest = missing_in other d in if is_some (Dict.get sid other) then rest else sid ∷ rest

-- The nodes that changed, were added and were deleted.
unfoldable pub compare : List ParsedNode → List ParsedNode → List String × List String × List String
unfolding hashes changed_in missing_in
compare prev_nodes curr_nodes =
    let prev = hashes prev_nodes [] in
    let curr = hashes curr_nodes [] in
    (changed_in prev curr, missing_in prev curr, missing_in curr prev)

abbrev pub compare_results :
    Result (List ParsedNode)
    → Result (List ParsedNode)
    → Result (List String × List String × List String)
compare_results (raise e) curr = raise e
compare_results (ok prev) (raise e) = raise e
compare_results (ok prev) (ok curr) = ok (compare prev curr)

unfoldable pub get_changed_nodes :
    Tools → String → String → String → String → Result (List String × List String × List String)
unfolding compare parse_nodes
get_changed_nodes tools file_path prev_sha current_sha repo =
    compare_results (parse_nodes tools (git_show tools prev_sha file_path) file_path repo)
      (parse_nodes tools (git_show tools current_sha file_path) file_path repo)
