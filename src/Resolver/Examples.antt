-- ===== src/Resolver/Examples.antt =====
-- A file that imports a known and an unknown symbol and a package.
use tersecontext.Prelude.{
  ℕ, String, Bool, true, false, ◌≡◌, refl, none, some, [], ◌∷◌, ◌==◌, length, eqb, if◌then◌else◌,
}
use tersecontext.Prelude.Dict
use tersecontext.Graph.Store.{NodeProps, Node, Graph}
use tersecontext.Pending.{malformed, retry_pending}
use tersecontext.Resolver.{
  ParsedFileEvent, import_from, compute_path_hint, State, queue, World, merge_import,
}
use tersecontext.Resolver.Process.{process_event, consume}
use tersecontext.Resolver.Linked.{IsLinked}
use tersecontext.Resolver.Linked.Kept.{consume-IsLinked}
use tersecontext.Resolver.Queues.{answer_of, is_resolvable}
use tersecontext.Resolver.Queues.Events.{unresolved_refs, process_event-queue}

absolute_hint : compute_path_hint "auth.service" [] 0 ≡ "auth/service"
unfolding compute_path_hint
absolute_hint = refl

relative_hint : compute_path_hint "x" ("auth" ∷ "api" ∷ "v.py" ∷ []) 2 ≡ "auth/"
unfolding compute_path_hint
relative_hint = refl

abbrev props : String → NodeProps
props name = record {
  name = name;
  type = "class";
  signature = "";
  docstring = "";
  body = "";
  file_path = "auth/service.py";
  qualified_name = name;
  language = "python";
  repo = "r";
  embed_text = "";
  node_hash = "";
}

abbrev node_of : String → Node ℕ
node_of name = record {
  props = some (props name);
  active = some true;
  updated_at = some 0;
  deleted_at = none;
  observed_calls = none;
  avg_latency_ms = none;
  branch_coverage = none;
  last_traced_at = none;
}

abbrev graph : Graph ℕ
graph = record {
  nodes = ("i", node_of "auth") ∷ ("a", node_of "AuthService") ∷ [];
  calls = [];
  imports = [];
}

abbrev event : ParsedFileEvent
event = record {
  repo = "r";
  commit_sha = "c";
  file_path = "app.py";
  language = "python";
  nodes =
      record {
        stable_id = "i";
        type = "import";
        name = "auth.service";
        qualified_name = "auth.service";
        body = "from";
      }
      ∷ [];
}

abbrev world : World
world = record {
  ast = λ body. some (import_from (some "auth.service") 0 ("AuthService" ∷ "Missing" ∷ []) ∷ []);
  parts = λ path. path ∷ [];
  event_of_json = λ raw. if raw == "event" then some event else none;
  pick = λ id ids. id;
}

abbrev start : State ℕ
start = record { graph = graph; pending = ("r", malformed "?" ∷ []) ∷ []; acked = []; commands = 0 }

abbrev up : ℕ → Bool
up n = true

abbrev sometimes : ℕ → Bool
sometimes n = if eqb n 3 then false else true

left : length (queue "r" (process_event world 7 up event start).1.pending) ≡ 1
unfolding process_event Dict.get compute_path_hint Dict.put Dict.remove
left = refl

linked : length (process_event world 7 up event start).1.graph.imports ≡ 1
unfolding process_event compute_path_hint Dict.get Dict.put merge_import
linked = refl

consume-IsLinked_example :
    IsLinked graph
      (consume world 7 sometimes ((("1", some "event") ∷ ("2", none) ∷ []) ∷ []) start).1.graph
consume-IsLinked_example =
    consume-IsLinked graph world 7 sometimes ((("1", some "event") ∷ ("2", none) ∷ []) ∷ []) start
      (record { nodes = refl; calls = refl; imports = record { joins = tt; distinct = tt } })

process_event-queue_example :
    queue "r" (process_event world 7 up event start).1.pending
    ≡ retry_pending 7
        (λ r. answer_of (is_resolvable world graph.nodes r))
        (malformed "?" ∷ unresolved_refs world 7 graph.nodes event)
unfolding Dict.get
process_event-queue_example =
    process_event-queue world 7 graph.nodes up (λ n. refl) event start refl (tt, tt)
