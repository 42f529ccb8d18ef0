-- ===== src/Parser/Examples.antt =====
-- A Python file of two functions, of which the first calls the second, and a file that is missing.
use tersecontext.Prelude.{
  ℕ, String, Bool, true, false, ◌≡◌, refl, ◌+◌, ◌==◌, none, some, List, [], ◌∷◌, eqb, any,
  if◌then◌else◌,
}
use tersecontext.Prelude.Text.{codes}
use tersecontext.Prelude.Effects.{failure, Result, ok, raise}
use tersecontext.Prelude.Results.{Holds, fold}
use tersecontext.Prelude.Dict
use tersecontext.Parser.Models.{
  stable_id, DiffType, modified, FileChangedEvent, ParsedNode, IntraFileEdge, ParsedFileEvent,
  calls,
}
use tersecontext.Parser.Tree.{Extent, Node, node, Children, end, child, Python, text_at, text_of}
use tersecontext.Parser.Python.{Extraction, get_signature, get_docstring}
use tersecontext.Parser.Edges.{
  extract, apply_diff_filter, has_edge, infer_calls_edges, find_call_names,
}
use tersecontext.Parser.Edges.Exact.{pair_calls, infer_calls_edges-exact}
use tersecontext.Parser.Edges.Sound.{IsFile}
use tersecontext.Parser.Consumer.{World, Message, Service, extractor, output, consume}
use tersecontext.Parser.Consumer.Sound.{extractor-IsFile}
use tersecontext.Parser.Consumer.Published.{
  IsSoundService, processable, seconds, consume-IsSound, consume-logs,
}

-- One letter stands for a text.
abbrev letter : List ℕ → Result String
letter [] = ok ""
letter (b ∷ bytes) =
    if eqb b b'f'
    then ok "f"
    else if eqb b b'g'
    then ok "g"
    else raise (failure "UnicodeDecodeError")

abbrev python : Python
python = record { decode = letter; sha256_hexdigest = λ s. s }

abbrev at : ℕ → Extent
at n = record { start_byte = n; end_byte = n + 1; start_row = n; end_row = n }

abbrev name_at : ℕ → Node
name_at n = node "identifier" (at n) end

abbrev call_of : ℕ → Node
call_of n = node "call" (at n) (child true "function" (name_at n) end)

abbrev function : ℕ → Children → Node
function n body =
    node "function_definition" (at n)
      (child true "name" (name_at n) (child true "body" (node "block" (at n) body) end))

abbrev module_node : Node
module_node = node "module" (at 0) (
    child true "" (function 0 (child true "" (call_of 1) end)) (child true "" (function 1 end) end))

abbrev source : List ℕ
source = codes "fg"

abbrev event : DiffType → FileChangedEvent
event type = record {
  repo = "r";
  commit_sha = "c";
  path = "p";
  language = "python";
  diff_type = type;
  changed_nodes = "sha256:r:p:function:f" ∷ [];
  added_nodes = [];
  deleted_nodes = [];
}

abbrev world : World
world = record {
  py = python;
  tree = λ language bytes. (module_node, false);
  read = λ repo path. ok source;
  event_of_json = λ raw. if raw == "modified" then some (event modified) else none;
}

abbrev messages : List Message
messages = ("1", some "modified") ∷ ("2", none) ∷ ("3", some "no event") ∷ []

abbrev idle : Service
idle = record { published = []; acked = []; commands = 0 }

abbrev up : ℕ → Bool
up n = true

abbrev sometimes : ℕ → Bool
sometimes n = eqb n 0

acked_first : (consume world up messages idle).1.acked ≡ "1" ∷ []
unfolding consume extract fold text_at get_signature get_docstring
acked_first = refl

edges_first :
    any
      (λ (out : ParsedFileEvent).
        has_edge "sha256:r:p:function:f" "sha256:r:p:function:g" out.intra_file_edges)
      (consume world up messages idle).1.published
    ≡ true
unfolding consume extract fold text_at get_signature get_docstring apply_diff_filter Dict.get
    Dict.put stable_id
edges_first = refl

consume-IsSound_example : IsSoundService (consume world sometimes messages idle).1
consume-IsSound_example = consume-IsSound world sometimes messages idle tt

consume-logs_example :
    ((consume world up messages idle).1.published ≡ seconds (processable world messages))
    × ((consume world up messages idle).1.acked ≡ "1" ∷ [])
unfolding output extract fold text_at get_signature get_docstring
consume-logs_example = consume-logs world up (λ n. refl) messages idle

extractor-IsFile_example : Holds IsFile (extractor world "python" source "r" "p" module_node)
extractor-IsFile_example = extractor-IsFile world "python" source "r" "p" module_node

abbrev named : String → ParsedNode
named name = record {
  stable_id = name;
  node_hash = "";
  type = "function";
  name = name;
  qualified_name = name;
  signature = "";
  docstring = "";
  body = "";
  line_start = 1;
  line_end = 1;
  parent_id = none;
}

abbrev extraction : Extraction
extraction = record {
  nodes = named "f" ∷ named "g" ∷ [];
  fn_pairs =
      (named "f", function 0 (child true "" (call_of 1) end)) ∷ (named "g", function 1 end) ∷ [];
  name_to_sid = ("f", "f") ∷ ("g", "g") ∷ [];
}

abbrev edges : List IntraFileEdge
edges = record { source_stable_id = "f"; target_stable_id = "g"; type = calls } ∷ []

infer_calls_edges-exact_example :
    has_edge "f" "g" edges
    ≡ any
        (pair_calls (find_call_names python source) extraction.name_to_sid "f" "g")
        extraction.fn_pairs
unfolding infer_calls_edges fold text_of Dict.get
infer_calls_edges-exact_example = infer_calls_edges-exact python source extraction "f" "g" refl
