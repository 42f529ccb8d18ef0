-- ===== src/VectorWriter/Examples.antt =====
-- A node that is embedded, deleted, and embedded again.
use tersecontext.Prelude.{
  ℕ, String, Bool, true, ◌≡◌, refl, some, none, List, [], ◌∷◌, ◌==◌, if◌then◌else◌,
}
use tersecontext.Prelude.Dict
use tersecontext.VectorWriter.{
  EmbeddedNode, Store, World, Message, embedded_nodes, file_changed, point_of, consume,
}
use tersecontext.VectorWriter.Latest.{consume-latest}

abbrev node : String → EmbeddedNode ℕ
node hash = record {
  stable_id = "n";
  vector = 1 ∷ [];
  name = "n";
  type = "function";
  file_path = "p";
  language = "python";
  node_hash = hash;
}

abbrev world : World ℕ
world = record {
  uuid5 = λ s. s;
  embedded_of_json = λ raw.
      if raw == ""
      then none
      else some (record { repo = "r"; commit_sha = none; nodes = node raw ∷ [] });
  changed_of_json = λ raw. some (record { repo = "r"; deleted_nodes = raw ∷ [] });
}

abbrev empty : Store ℕ
empty = record { points = []; acked = []; commands = 0 }

abbrev messages : List Message
messages =
    embedded_nodes "1" (some "old")
    ∷ file_changed "2" (some "n")
    ∷ embedded_nodes "3" (some "")
    ∷ embedded_nodes "4" (some "new")
    ∷ []

abbrev up : ℕ → Bool
up n = true

acked_all : (consume world up messages empty).1.acked ≡ "1" ∷ "2" ∷ "3" ∷ "4" ∷ []
unfolding consume
acked_all = refl

consume-latest_example :
    Dict.get "n" (consume world up messages empty).1.points ≡ some (point_of world "r" (node "new"))
unfolding Dict.get
consume-latest_example = consume-latest world (λ a b e. e) up (λ n. refl) "n" messages empty
