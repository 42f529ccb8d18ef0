-- ===== src/Watcher/Examples.antt =====
-- A small repository with two commits for the theorems on the watcher.
use tersecontext.Prelude.{
  ℕ, String, Bool, true, ◌&&◌, not, Option, none, some, List, [], ◌∷◌, ◌==◌, ◌≡◌, refl, ◌⊎◌, elem,
  eqb, if◌then◌else◌,
}
use tersecontext.Prelude.Dict
use tersecontext.Prelude.Effects.{ok}
use tersecontext.Watcher.Models.{modified, ParsedNode, StatusLine, Tools}
use tersecontext.Watcher.Differ.{is_some, language_of, compare, get_changed_files}
use tersecontext.Watcher.Differ.Exact.{hash_in, has_changed, compare_exact}
use tersecontext.Watcher.Polling.{Watcher, unless_blank, poll, change_event}
use tersecontext.Watcher.Polling.Reported.{added_to, commit_events, poll-reports}
use tersecontext.Watcher.Polling.Progress.{poll-records}

abbrev parsed : String → String → ParsedNode
parsed id hash = record {
  stable_id = id;
  node_hash = hash;
  type = "function";
  name = id;
  qualified_name = id;
  signature = "";
  docstring = "";
  body = "";
  line_start = 1;
  line_end = 2;
  parent_id = none;
}

abbrev old_nodes : List ParsedNode
old_nodes = parsed "f" "1" ∷ parsed "g" "1" ∷ []

abbrev new_nodes : List ParsedNode
new_nodes = parsed "f" "2" ∷ parsed "h" "1" ∷ []

-- The content of a file is one byte that tells its version.
abbrev nodes_of : List ℕ → List ParsedNode
nodes_of [] = []
nodes_of (b ∷ bs) = if eqb b 1 then old_nodes else new_nodes

abbrev content_at : String → Option (List ℕ)
content_at sha = if sha == "aaaa" then some (1 ∷ []) else some (2 ∷ [])

abbrev repository : List StatusLine → Tools
repository lines = record {
  rev_parse = some "bbbb";
  ls_files = some ("a.py" ∷ []);
  name_status = λ prev curr. some lines;
  show = λ sha path. content_at sha;
  suffix = λ path. ".py";
  extract = λ content repo path. ok (nodes_of content);
}

abbrev edited : Tools
edited = repository (("M", "a.py" ∷ []) ∷ [])

abbrev renamed : Tools
renamed = repository (("R100", "a.py" ∷ "b.py" ∷ []) ∷ [])

abbrev always : ℕ → Bool
always i = true

always-up : (i : ℕ) → always i ≡ true
always-up i = refl

abbrev idle : Watcher
idle = record { shas = ("shop", "aaaa") ∷ []; events = []; commands = 0 }

compare_exact_example :
    (elem "f" (compare old_nodes new_nodes).0
      ≡ has_changed (hash_in "f" old_nodes) (hash_in "f" new_nodes))
    × (elem "f" (compare old_nodes new_nodes).1
        ≡ (is_some (hash_in "f" new_nodes) && not (is_some (hash_in "f" old_nodes))))
    × (elem "f" (compare old_nodes new_nodes).2
        ≡ (is_some (hash_in "f" old_nodes) && not (is_some (hash_in "f" new_nodes))))
compare_exact_example = compare_exact "f" old_nodes new_nodes

-- The old path of a rename is not reported.
rename_test : get_changed_files renamed "aaaa" "bbbb" ≡ ok (("b.py", modified) ∷ [])
unfolding get_changed_files language_of
rename_test = refl

poll-reports_example :
    ((poll always edited "shop" idle).1.shas ≡ idle.shas)
    ⊎ (((poll always edited "shop" idle).1.shas ≡ Dict.put "shop" "bbbb" idle.shas)
        × (added_to idle.events
              (commit_events edited "shop" "bbbb" (unless_blank (Dict.get "shop" idle.shas)))
            ≡ ok (poll always edited "shop" idle).1.events))
poll-reports_example = poll-reports always edited "shop" "bbbb" idle refl

poll-records_example : Dict.get "shop" (poll always edited "shop" idle).1.shas ≡ some "bbbb"
unfolding Dict.get get_changed_files language_of change_event
poll-records_example = poll-records always always-up edited "shop" "bbbb" idle refl refl
