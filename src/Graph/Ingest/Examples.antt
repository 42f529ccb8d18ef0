-- ===== src/Graph/Ingest/Examples.antt =====
-- A first file of two functions, through both consumers.
use tersecontext.Prelude.{ℕ, String, true, some, [], ◌∷◌, ◌≡◌, refl, map}
use tersecontext.Graph.Write.{ParsedNode}
use tersecontext.Graph.Ingest.{
  ParsedFileEvent, EmbeddedNodesEvent, Writer, parsed_file, deliver_all,
}
use tersecontext.Graph.Ingest.Edgeless.{embedded, calls-first_index}

abbrev function : String → ParsedNode
function id = record {
  stable_id = id;
  type = "function";
  name = id;
  qualified_name = id;
  signature = "";
  docstring = "";
  body = "";
}

abbrev file : ParsedFileEvent
file = record {
  repo = "shop";
  commit_sha = "aaaa";
  file_path = "a.py";
  language = "python";
  nodes = function "f" ∷ function "g" ∷ [];
  intra_file_edges = ("f", "g") ∷ [];
  deleted_nodes = [];
}

abbrev embedding : EmbeddedNodesEvent
embedding = record {
  repo = "shop";
  commit_sha = "aaaa";
  file_path = "a.py";
  nodes =
      record { stable_id = "f"; embed_text = "f"; node_hash = "1" }
      ∷ record { stable_id = "g"; embed_text = "g"; node_hash = "1" }
      ∷ [];
}

abbrev empty : Writer ℕ
empty = record {
  graph = record { nodes = []; calls = []; imports = [] };
  cache = [];
  acked = [];
  commands = 0;
}

calls-first_index_example :
    (deliver_all
      (λ i. true)
      (λ raw. some file)
      (λ raw. some embedding)
      (parsed_file "1" (some "{}") ∷ map embedded (("2", some "{}") ∷ []))
      empty).graph.calls
    ≡ []
calls-first_index_example =
    calls-first_index (λ i. true) (λ raw. some file) (λ raw. some embedding) "1" "{}" file
      (("2", some "{}") ∷ []) empty refl refl (refl, tt)
