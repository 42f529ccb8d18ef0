-- ===== src/Embedder/Examples.antt =====
-- Two nodes of which one is new, a provider of one dimension, and batches of one.
use tersecontext.Prelude.{
  ℕ, String, Bool, true, false, ◌≡◌, refl, some, none, List, [], ◌∷◌, ◌==◌, All, map, eqb,
  if◌then◌else◌,
}
use tersecontext.Prelude.Dict
use tersecontext.Prelude.Dict.{Dict}
use tersecontext.Prelude.Effects.{Result, ok}
use tersecontext.Embedder.{ParsedNode, build_embed_text, to_embed, embed_nodes}
use tersecontext.Embedder.Batches.{node_for, embed_nodes-map}
use tersecontext.Embedder.Consumer.{Service, World, consume}
use tersecontext.Embedder.Consumer.Fitting.{FitsEvent, consume-fits}

abbrev parsed : String → ParsedNode
parsed name = record {
  stable_id = name;
  node_hash = "h";
  type = "function";
  name = name;
  signature = "()";
  docstring = "";
  body = "pass";
}

abbrev nodes : List ParsedNode
nodes = parsed "f" ∷ parsed "g" ∷ []

embed_text : build_embed_text (parsed "f") ≡ "f () pass"
unfolding build_embed_text
embed_text = refl

abbrev cache : Dict String
cache = ("g", "h") ∷ ("f", "old") ∷ []

abbrev vector_of : String → List ℕ
vector_of text = 1 ∷ 2 ∷ []

abbrev embed : List String → Result (List (List ℕ))
embed texts = ok (map vector_of texts)

embed_nodes-map_example :
    embed_nodes embed "p" "python" nodes cache 1 2
    ≡ ok (node_for embed vector_of 2 (λ texts. refl) (λ t. refl) "p" "python" (parsed "f") ∷ [])
unfolding to_embed Dict.get
embed_nodes-map_example =
    embed_nodes-map embed vector_of 2 (λ texts. refl) (λ t. refl) "p" "python" nodes cache 0

abbrev world : World ℕ
world = record {
  embed = embed;
  node_hashes = λ stable_ids. cache;
  event_of_json = λ raw.
      if raw == "event"
      then some (record {
        repo = "r";
        commit_sha = "c";
        file_path = "p";
        language = "python";
        nodes = nodes;
      })
      else none;
  batch_size = 64;
  embedding_dim = 2;
}

abbrev idle : Service ℕ
idle = record { published = []; acked = []; commands = 0 }

abbrev but_first : ℕ → Bool
but_first n = if eqb n 0 then false else true

acked_both :
    (consume world but_first ((("1", some "event") ∷ ("2", none) ∷ []) ∷ []) idle).1.acked
    ≡ "1" ∷ "2" ∷ []
unfolding consume embed_nodes Dict.get
acked_both = refl

consume-fits_example :
    All
      (FitsEvent world but_first)
      (consume world but_first ((("1", some "event") ∷ ("2", none) ∷ []) ∷ []) idle).1.published
consume-fits_example =
    consume-fits world but_first ((("1", some "event") ∷ ("2", none) ∷ []) ∷ []) idle tt
