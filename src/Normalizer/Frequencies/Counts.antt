-- ===== src/Normalizer/Frequencies/Counts.antt =====
-- What `aggregate_frequencies` stores and returns, and which total the handler takes for it.
use tersecontext.Prelude.{
  ℕ, ◌+◌, ◌≤◌, ◌<◌, String, true, Option, none, some, List, [], ◌∷◌, ◌≡◌, ◌≢◌, refl, inl, inr, ltb,
  ◌==◌, eq_iff, eq_refl, map, All, Bool-cases, if◌then◌else◌, arith,
}
use tersecontext.Prelude.Dict
use tersecontext.Prelude.Dict.{Dict, get-put}
use tersecontext.Prelude.Float.{Float, FloatLaws}
use tersecontext.Normalizer.Models.{CallNode}
use tersecontext.Normalizer.Frequencies.{
  AggEntry, Agg, Store, agg_key, or_empty, max_runs, merge_node, merge_nodes, bump, or_fresh,
  at_most_one, update_node, update_nodes, aggregate_frequencies,
}

module _ {F : Type 0} where
  -- The number of nodes of a function.
  abbrev pub occurrences : String → List (CallNode F) → ℕ
  occurrences k [] = 0
  occurrences k (node ∷ nodes) = (if node.stable_id == k then 1 else 0) + occurrences k nodes

  abbrev pub runs_in : Option (AggEntry F) → ℕ
  runs_in none = 0
  runs_in (some e) = e.runs

  abbrev pub runs_at : String → Agg F → ℕ
  runs_at k agg = runs_in (Dict.get k agg)

  abbrev pub count_in : Option (AggEntry F) → ℕ
  count_in none = 0
  count_in (some e) = e.count

module _ {F : Type 0} ⦃float : Float F⦄ where
  merge_node_counts :
      (k : String) (node : CallNode F) (agg : Agg F)
      → (runs_at k (merge_node node agg) ≡ (if node.stable_id == k then 1 else 0) + runs_at k agg)
        × (count_in (Dict.get k (merge_node node agg))
            ≡ (if node.stable_id == k then 1 else 0) + count_in (Dict.get k agg))
  unfolding merge_node
  merge_node_counts k node agg = ground (
    arith,
    eq_iff node.stable_id k,
    get-put node.stable_id k (bump node.avg_ms (or_fresh (Dict.get node.stable_id agg))) agg,
  )

  merge_nodes_counts :
      (k : String) (nodes : List (CallNode F)) (agg : Agg F)
      → (runs_at k (merge_nodes nodes agg) ≡ occurrences k nodes + runs_at k agg)
        × (count_in (Dict.get k (merge_nodes nodes agg))
            ≡ occurrences k nodes + count_in (Dict.get k agg))
  unfolding merge_nodes
  merge_nodes_counts k [] agg = (omega arith, omega arith)
  merge_nodes_counts k (node ∷ nodes) agg =
      let s = merge_node_counts k node agg in
      let r = merge_nodes_counts k nodes (merge_node node agg) in
      (omega (arith, s.0, r.0), omega (arith, s.1, r.1))

  pub aggregate_frequencies-runs :
      (r : Store F) (repo entrypoint k : String) (nodes : List (CallNode F)) (total_runs : ℕ)
      → runs_at k (
          or_empty (
            Dict.get
              (agg_key repo entrypoint)
              (aggregate_frequencies r repo entrypoint nodes total_runs).1))
        ≡ occurrences k nodes + runs_at k (or_empty (Dict.get (agg_key repo entrypoint) r))
  unfolding aggregate_frequencies
  aggregate_frequencies-runs r repo entrypoint k nodes total_runs =
      let key = agg_key repo entrypoint in
      let old = or_empty (Dict.get key r) in
      let new = merge_nodes nodes old in
      let own : Dict.get key (Dict.put key new r) ≡ some new = simp (get-put, eq_refl) in
      rw own (merge_nodes_counts k nodes old).0

  -- Both counters of every function grow by the number of nodes that this run has of it, under the key of the
  -- repository and the entrypoint, and no other key of Redis is written.
  pub aggregate_frequencies-counts :
      (r : Store F) (repo entrypoint k : String) (nodes : List (CallNode F)) (total_runs : ℕ)
      (other : String)
      → agg_key repo entrypoint ≢ other
      → (runs_at k (
            or_empty (
              Dict.get
                (agg_key repo entrypoint)
                (aggregate_frequencies r repo entrypoint nodes total_runs).1))
          ≡ occurrences k nodes + runs_at k (or_empty (Dict.get (agg_key repo entrypoint) r)))
        × (count_in (
              Dict.get k (
                or_empty (
                  Dict.get
                    (agg_key repo entrypoint)
                    (aggregate_frequencies r repo entrypoint nodes total_runs).1)))
            ≡ occurrences k nodes
              + count_in (Dict.get k (or_empty (Dict.get (agg_key repo entrypoint) r))))
        × (Dict.get other (aggregate_frequencies r repo entrypoint nodes total_runs).1
            ≡ Dict.get other r)
  unfolding aggregate_frequencies
  aggregate_frequencies-counts r repo entrypoint k nodes total_runs other h =
      let key = agg_key repo entrypoint in
      let old = or_empty (Dict.get key r) in
      let new = merge_nodes nodes old in
      let m = merge_nodes_counts k nodes old in
      let own : Dict.get key (Dict.put key new r) ≡ some new = simp (get-put, eq_refl) in
      (rw own m.0, rw own m.1, ground (arith, get-put key other new r, eq_iff key other))

  runs_at-le-max_runs : (k : String) (agg : Agg F) → runs_at k agg ≤ max_runs agg
  unfolding max_runs Dict.get
  runs_at-le-max_runs k [] = omega arith
  runs_at-le-max_runs k ((j, e) ∷ agg) = ground (arith, runs_at-le-max_runs k agg)

  -- The total that the handler takes for the number of runs, one more than the largest `runs` entry, is above
  -- the number of calls of any one function so far, within one run too: it counts calls and not runs.
  pub occurrences-lt-total_runs :
      (k : String) (nodes : List (CallNode F)) (agg : Agg F)
      → occurrences k nodes + runs_at k agg < max_runs (merge_nodes nodes agg) + 1
  occurrences-lt-total_runs k nodes agg =
      omega
        (arith, (merge_nodes_counts k nodes agg).0, runs_at-le-max_runs k (merge_nodes nodes agg))

  -- The function and the depth of each node, which the update must keep.
  abbrev pub places : List (CallNode F) → List (String × ℕ)
  places = map (λ n. (n.stable_id, n.hop))

  places-update_nodes :
      (agg : Agg F) (n : ℕ) (nodes : List (CallNode F))
      → places (update_nodes agg n nodes) ≡ places nodes
  unfolding update_nodes update_node
  places-update_nodes agg n [] = refl
  places-update_nodes agg n (node ∷ nodes) = cc (places-update_nodes agg n nodes)

  abbrev pub IsRatio : CallNode F → Type 0
  IsRatio node = float.le node.frequency_ratio (float.of_ℕ 1) ≡ true

  module _ (laws : FloatLaws float) where
    at_most_one-le : (x : F) → float.le (at_most_one x) (float.of_ℕ 1) ≡ true
    at_most_one-le x = ground (
      arith,
      laws.lt-le x (float.of_ℕ 1),
      laws.le_total (float.of_ℕ 1) x,
      laws.le_refl (float.of_ℕ 1),
    )

    update_nodes-IsRatio :
        (agg : Agg F) (n : ℕ) (nodes : List (CallNode F)) → All IsRatio (update_nodes agg n nodes)
    unfolding update_nodes update_node
    update_nodes-IsRatio agg n [] = tt
    update_nodes-IsRatio agg n (node ∷ nodes) = (at_most_one-le _, update_nodes-IsRatio agg n nodes)

    -- On both sides of the threshold of five runs, the nodes keep their functions, their depths and their order, and
    -- no frequency is above 1 if none was.
    pub aggregate_frequencies-nodes :
        (r : Store F) (repo entrypoint : String) (nodes : List (CallNode F)) (total_runs : ℕ)
        → All IsRatio nodes
        → (places (aggregate_frequencies r repo entrypoint nodes total_runs).0 ≡ places nodes)
          × All IsRatio (aggregate_frequencies r repo entrypoint nodes total_runs).0
    unfolding aggregate_frequencies
    aggregate_frequencies-nodes r repo entrypoint nodes total_runs h =
        let agg = merge_nodes nodes (or_empty (Dict.get (agg_key repo entrypoint) r)) in
        elim (Bool-cases (ltb total_runs 5)) [
          | inl few ↦ rw few (refl, h)
          | inr many ↦
              rw many (
                places-update_nodes agg total_runs nodes,
                update_nodes-IsRatio agg total_runs nodes,
              )
        ]
