-- ===== src/Embedder/Batches.antt =====
-- The vectors that a file gets, and that the batches do not matter.
use tersecontext.Prelude.{
  ℕ, zero, suc, ◌≤◌, String, Bool, true, ◌||◌, ◌≡◌, refl, ap, List, [], ◌∷◌, ◌++◌, take, length,
  map, All, All-append, eqb, arith, Bool-cases, inl, inr,
}
use tersecontext.Prelude.Dict.{Dict}
use tersecontext.Prelude.Effects.{Result, ok}
use tersecontext.Prelude.Results.{Holds, Holds-bind, Holds-chain, Holds-weaken, ◌>>=◌}
use tersecontext.Embedder.{
  ParsedNode, EmbeddedNode, build_embed_text, to_embed, drop, check_dim, embed_batches, embedded,
  embed_some, unless_nil, embed_nodes,
}

length-drop-le : {A : Type 0} (n : ℕ) (xs : List A) → length (drop n xs) ≤ length xs
length-drop-le zero xs = omega arith
length-drop-le (suc n) [] = omega arith
length-drop-le (suc n) (x ∷ xs) = omega (arith, length-drop-le n xs)

map-take-drop :
    {A B : Type 0} (f : A → B) (n : ℕ) (xs : List A)
    → map f (take n xs) ++ map f (drop n xs) ≡ map f xs
map-take-drop f zero xs = refl
map-take-drop f (suc n) [] = refl
map-take-drop f (suc n) (x ∷ xs) = ap (λ ys. f x ∷ ys) (map-take-drop f n xs)

abbrev pub fits : {F : Type 0} → ℕ → List F → Bool
fits dim vec = eqb dim 0 || eqb (length vec) dim

module _ {F : Type 0} (embed : List String → Result (List (List F))) where
  check_dim-fits :
      (dim : ℕ) (vecs : List (List F))
      → Holds (λ _. All (λ v. fits dim v ≡ true) vecs) (check_dim embed dim vecs)
  check_dim-fits dim [] = tt
  check_dim-fits dim (v ∷ vecs) = elim (Bool-cases (fits dim v)) [
    | inl e ↦ rw e (
        Holds-weaken (λ _. All (λ v. fits dim v ≡ true) vecs)
          (λ _. (true ≡ true) × All (λ v. fits dim v ≡ true) vecs) (check_dim embed dim vecs)
          (λ u h. (refl, h)) (check_dim-fits dim vecs))
    | inr e ↦ rw e tt
  ]

  embed_batches-fits :
      (fuel size dim : ℕ) (texts : List String)
      → Holds (λ vecs. All (λ v. fits dim v ≡ true) vecs) (embed_batches embed fuel size dim texts)
  unfolding embed_batches
  embed_batches-fits zero size dim texts = tt
  embed_batches-fits (suc fuel) size dim [] = tt
  embed_batches-fits (suc fuel) size dim (t ∷ texts) =
      let Fit : List (List F) → Type 0 = λ vecs. All (λ v. fits dim v ≡ true) vecs in
      Holds-bind Fit (embed (take size (t ∷ texts))) _ λ vectors.
        Holds-chain Fit (λ _. Fit vectors) (check_dim embed dim vectors)
          (λ _. embed_batches embed fuel size dim (drop size (t ∷ texts)) >>= λ rest.
            ok (vectors ++ rest))
          (check_dim-fits dim vectors)
          (λ u h.
            Holds-chain Fit Fit (embed_batches embed fuel size dim (drop size (t ∷ texts)))
              (λ rest. ok (vectors ++ rest))
              (embed_batches-fits fuel size dim (drop size (t ∷ texts)))
              (λ rest k. All-append (λ v. fits dim v ≡ true) vectors rest h k))

  module _ (file_path language : String) where
    embedded-fits :
        (dim : ℕ) (nodes : List ParsedNode) (vecs : List (List F))
        → All (λ v. fits dim v ≡ true) vecs
        → All
            (λ (n : EmbeddedNode F). fits dim n.vector ≡ true)
            (embedded embed file_path language nodes vecs)
    embedded-fits dim [] vecs h = tt
    embedded-fits dim (n ∷ nodes) [] h = tt
    embedded-fits dim (n ∷ nodes) (v ∷ vecs) h = (h.0, embedded-fits dim nodes vecs h.1)

    embed_some-fits :
        (size dim : ℕ) (nodes : List ParsedNode)
        → Holds
            (λ out. All (λ (n : EmbeddedNode F). fits dim n.vector ≡ true) out)
            (embed_some embed file_path language size dim nodes)
    embed_some-fits zero dim nodes = tt
    embed_some-fits (suc size) dim nodes =
        Holds-chain (λ out. All (λ (n : EmbeddedNode F). fits dim n.vector ≡ true) out)
          (λ vecs. All (λ v. fits dim v ≡ true) vecs)
          (embed_batches embed (length nodes) (suc size) dim (map build_embed_text nodes))
          (λ vectors. ok (embedded embed file_path language nodes vectors))
          (embed_batches-fits (length nodes) (suc size) dim (map build_embed_text nodes))
          (embedded-fits dim nodes)

    unless_nil-fits :
        (size dim : ℕ) (nodes : List ParsedNode)
        → Holds
            (λ out. All (λ (n : EmbeddedNode F). fits dim n.vector ≡ true) out)
            (unless_nil embed file_path language size dim nodes)
    unless_nil-fits size dim [] = tt
    unless_nil-fits size dim (n ∷ nodes) = embed_some-fits size dim (n ∷ nodes)

    -- Whatever the provider answers, and whatever the size of the batches: if the nodes are embedded at
    -- all, each vector has the dimension that is asked for, where one is asked for.
    pub embed_nodes-fits :
        (nodes : List ParsedNode) (cache : Dict String) (size dim : ℕ)
        → Holds
            (λ out. All (λ (n : EmbeddedNode F). fits dim n.vector ≡ true) out)
            (embed_nodes embed file_path language nodes cache size dim)
    unfolding embed_nodes
    embed_nodes-fits nodes cache size dim = unless_nil-fits size dim (to_embed cache nodes)

  -- A provider that answers each text with its vector, of the dimension asked for.
  module _ (vector_of : String → List F) (dim : ℕ)
      (answers : (texts : List String) → embed texts ≡ ok (map vector_of texts))
      (fit : (t : String) → fits dim (vector_of t) ≡ true) where
    check_dim-map : (texts : List String) → check_dim embed dim (map vector_of texts) ≡ ok tt
    check_dim-map [] = refl
    check_dim-map (t ∷ texts) = rw (fit t) (check_dim-map texts)

    embed_batches-map :
        (size fuel : ℕ) (texts : List String)
        → length texts ≤ fuel
        → embed_batches embed fuel (suc size) dim texts ≡ ok (map vector_of texts)
    unfolding embed_batches
    embed_batches-map size zero [] h = refl
    embed_batches-map size zero (t ∷ texts) h = ground arith
    embed_batches-map size (suc fuel) [] h = refl
    embed_batches-map size (suc fuel) (t ∷ texts) h = rw (answers (take (suc size) (t ∷ texts))) (
        rw (check_dim-map (take (suc size) (t ∷ texts))) (
          rw
            (embed_batches-map size fuel (drop size texts)
              (omega (arith, length-drop-le size texts, h)))
            (ap (λ vs. ok (vector_of t ∷ vs)) (map-take-drop vector_of size texts))))

    module _ (file_path language : String) where
      abbrev pub node_for : ParsedNode → EmbeddedNode F
      node_for n = record {
        stable_id = n.stable_id;
        vector = vector_of (build_embed_text n);
        embed_text = build_embed_text n;
        node_hash = n.node_hash;
        name = n.name;
        type = n.type;
        file_path = file_path;
        language = language;
      }

      embedded-map :
          (nodes : List ParsedNode)
          → embedded embed file_path language nodes (map vector_of (map build_embed_text nodes))
            ≡ map node_for nodes
      embedded-map [] = refl
      embedded-map (n ∷ nodes) = ap (λ out. node_for n ∷ out) (embedded-map nodes)

      length-map : {A B : Type 0} (f : A → B) (xs : List A) → length (map f xs) ≡ length xs
      length-map f [] = refl
      length-map f (x ∷ xs) = ap suc (length-map f xs)

      unless_nil-map :
          (size : ℕ) (nodes : List ParsedNode)
          → unless_nil embed file_path language (suc size) dim nodes ≡ ok (map node_for nodes)
      unless_nil-map size [] = refl
      unless_nil-map size (n ∷ nodes) =
          rw
            (embed_batches-map size (length (n ∷ nodes)) (map build_embed_text (n ∷ nodes))
              (omega (arith, length-map build_embed_text nodes)))
            (ap ok (embedded-map (n ∷ nodes)))

      -- With a provider that gives each text its vector, of the right dimension, every size of the batches
      -- but 0 leads to the same nodes: those whose hash is not the one of the graph, in order, each with
      -- the vector of its own text.
      pub embed_nodes-map :
          (nodes : List ParsedNode) (cache : Dict String) (size : ℕ)
          → embed_nodes embed file_path language nodes cache (suc size) dim
            ≡ ok (map node_for (to_embed cache nodes))
      unfolding embed_nodes
      embed_nodes-map nodes cache size = unless_nil-map size (to_embed cache nodes)
