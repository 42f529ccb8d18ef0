-- ===== src/Embedder.antt =====
-- services/embedder/app/embedder.py and consumer.py: vectors for the nodes of a parsed file whose hash
-- is new, asked of a provider in batches.
pub mod Batches
pub mod Consumer
mod Examples
use tersecontext.Prelude.{
  ℕ, zero, suc, String, Bool, true, false, ◌||◌, not, Option, none, some, List, [], ◌∷◌, ◌++◌, ◌==◌,
  take, length, keep, map, eqb, if◌then◌else◌,
}
use Prim.Native.String
use Prim.Native.String.{◌++◌ as ◌<>◌}
use tersecontext.Prelude.Dict
use tersecontext.Prelude.Dict.{Dict}
use tersecontext.Prelude.Effects.{Exception, key_error, value_error, failure, Result, ok, raise}
use tersecontext.Prelude.Results.{◌>>=◌, ◌>>◌}

-- models.py, as far as it is read.
pub record ParsedNode : Type 0 where
  pub stable_id : String
  pub node_hash : String
  pub type : String
  pub name : String
  pub signature : String
  pub docstring : String
  pub body : String

pub record ParsedFileEvent : Type 0 where
  pub repo : String
  pub commit_sha : String
  pub file_path : String
  pub language : String
  pub nodes : List ParsedNode

-- A vector is a list of floats.
pub record EmbeddedNode (F : Type 0) : Type 0 where
  pub stable_id : String
  pub vector : List F
  pub embed_text : String
  pub node_hash : String
  pub name : String
  pub type : String
  pub file_path : String
  pub language : String

pub record EmbeddedNodesEvent (F : Type 0) : Type 0 where
  pub repo : String
  pub commit_sha : String
  pub file_path : String
  pub nodes : List (EmbeddedNode F)

abbrev pub max_body_chars : ℕ
max_body_chars = 512

-- `body[:n]`
abbrev pub first : ℕ → String → String
first zero s = String.[]
first (suc n) String.[] = String.[]
first (suc n) (String.◌∷◌ c s) = String.◌∷◌ c (first n s)

-- " ".join(parts) of a first part and the others
abbrev pub spaced : String → List String → String
spaced p [] = p
spaced p (q ∷ parts) = p <> " " <> spaced q parts

-- The part, if it is not empty.
abbrev pub unless_empty : String → String → List String
unless_empty s part = if not (s == "") then part ∷ [] else []

unfoldable pub build_embed_text : ParsedNode → String
build_embed_text n = spaced n.name (
    n.signature
    ∷ (unless_empty n.docstring n.docstring ++ unless_empty n.body (first max_body_chars n.body)))

abbrev pub has_hash : Option String → String → Bool
has_hash none h = false
has_hash (some g) h = g == h

unfoldable pub to_embed : Dict String → List ParsedNode → List ParsedNode
to_embed cache nodes =
    keep (λ (n : ParsedNode). not (has_hash (Dict.get n.stable_id cache) n.node_hash)) nodes

abbrev pub drop : {A : Type 0} → ℕ → List A → List A
drop zero xs = xs
drop (suc n) [] = []
drop (suc n) (x ∷ xs) = drop n xs

module _ {F : Type 0} (embed : List String → Result (List (List F))) where
  -- A vector of another dimension raises; the dimension 0 stands for any.
  abbrev pub check_dim : ℕ → List (List F) → Result (Unit {0})
  check_dim dim [] = ok tt
  check_dim dim (vec ∷ vecs) =
      let rest = check_dim dim vecs in
      if eqb dim 0 || eqb (length vec) dim
      then rest
      else raise (value_error "Expected vector dimension")

  -- The loop over the batches, on fuel.
  unfoldable pub embed_batches : ℕ → ℕ → ℕ → List String → Result (List (List F))
  embed_batches zero size dim texts = ok []
  embed_batches (suc fuel) size dim [] = ok []
  embed_batches (suc fuel) size dim (t ∷ texts) = do
    vectors ← embed (take size (t ∷ texts))
    checked ← check_dim dim vectors
    rest ← embed_batches fuel size dim (drop size (t ∷ texts))
    ok (vectors ++ rest)

  module _ (file_path language : String) where
    -- One node for each pair of a node and a vector.
    abbrev pub embedded : List ParsedNode → List (List F) → List (EmbeddedNode F)
    embedded [] vectors = []
    embedded (n ∷ nodes) [] = []
    embedded (n ∷ nodes) (vector ∷ vectors) =
        record {
          stable_id = n.stable_id;
          vector = vector;
          embed_text = build_embed_text n;
          node_hash = n.node_hash;
          name = n.name;
          type = n.type;
          file_path = file_path;
          language = language;
        }
        ∷ embedded nodes vectors

    -- `range` refuses the step 0.
    abbrev pub embed_some : ℕ → ℕ → List ParsedNode → Result (List (EmbeddedNode F))
    embed_some zero dim nodes = raise (value_error "range() arg 3 must not be zero")
    embed_some (suc size) dim nodes = do
      vectors ← embed_batches (length nodes) (suc size) dim (map build_embed_text nodes)
      ok (embedded nodes vectors)

    abbrev pub unless_nil : ℕ → ℕ → List ParsedNode → Result (List (EmbeddedNode F))
    unless_nil size dim [] = ok []
    unless_nil size dim (n ∷ nodes) = embed_some size dim (n ∷ nodes)

    unfoldable pub embed_nodes :
        List ParsedNode → Dict String → ℕ → ℕ → Result (List (EmbeddedNode F))
    unfolding to_embed embed_batches
    embed_nodes nodes cache size dim = unless_nil size dim (to_embed cache nodes)
