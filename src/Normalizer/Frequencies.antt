-- ===== src/Normalizer/Frequencies.antt =====
-- services/trace-normalizer/app/normalizer.py: `aggregate_frequencies` and `compute_percentiles`,
-- with the Redis keys that hold the aggregates. The values are JSON texts of a `dict`, modelled by
-- the `dict`; they expire by a clock of Redis, which is not modelled.
pub mod Counts
pub mod Percentiles
use tersecontext.Prelude.{
  ℕ, zero, suc, ◌+◌, ◌-◌, ◌*◌, ◌/◌, min, max, String, Bool, true, false, Option, none, some, List,
  [], ◌∷◌, ltb, eqb, ◌%◌, length, get_elem?, if◌then◌else◌,
}
use tersecontext.Prelude.Dict
use tersecontext.Prelude.Dict.{Dict}
use tersecontext.Prelude.Float.{Float}
use tersecontext.Prelude.Sort.{sorted}
use tersecontext.Normalizer.Models.{CallNode}
use Prim.Native.String.{◌++◌}

pub record AggEntry (F : Type 0) : Type 0 where
  pub count : ℕ
  pub total_ms : F
  pub runs : ℕ

abbrev pub Agg : Type 0 → Type 0
Agg F = Dict (AggEntry F)

-- The aggregates under their keys.
abbrev pub Store : Type 0 → Type 0
Store F = Dict (Agg F)

abbrev pub agg_key : String → String → String
agg_key repo entrypoint = "trace_agg:" ++ (repo ++ (":" ++ entrypoint))

abbrev pub or_empty : {V : Type 0} → Option (Dict V) → Dict V
or_empty none = []
or_empty (some d) = d

-- `max((v.get("runs", 0) for v in existing_agg.values()), default=0)`
unfoldable pub max_runs : {F : Type 0} → Agg F → ℕ
max_runs [] = 0
max_runs ((k, e) ∷ agg) = max e.runs (max_runs agg)

module _ {F : Type 0} ⦃float : Float F⦄ where
  abbrev pub fresh : AggEntry F
  fresh = record { count = 0; total_ms = float.of_ℕ 0; runs = 0 }

  abbrev pub or_fresh : Option (AggEntry F) → AggEntry F
  or_fresh none = fresh
  or_fresh (some e) = e

  abbrev pub bump : F → AggEntry F → AggEntry F
  bump ms e = record { count = e.count + 1; total_ms = float.add e.total_ms ms; runs = e.runs + 1 }

  -- The body of the first loop: the entry is made if it is missing, and then counted up.
  unfoldable pub merge_node : CallNode F → Agg F → Agg F
  merge_node node agg =
      Dict.put node.stable_id (bump node.avg_ms (or_fresh (Dict.get node.stable_id agg))) agg

  unfoldable pub merge_nodes : List (CallNode F) → Agg F → Agg F
  unfolding merge_node
  merge_nodes [] agg = agg
  merge_nodes (node ∷ nodes) agg = merge_nodes nodes (merge_node node agg)

  -- `min(1.0, x)`
  abbrev pub at_most_one : F → F
  at_most_one x = if float.lt x (float.of_ℕ 1) then x else float.of_ℕ 1

  abbrev runs_of : Option (AggEntry F) → ℕ
  runs_of none = 1
  runs_of (some e) = e.runs

  abbrev total_of : CallNode F → Option (AggEntry F) → F
  total_of node none = node.avg_ms
  total_of node (some e) = e.total_ms

  -- The body of the second loop.
  unfoldable pub update_node : Agg F → ℕ → CallNode F → CallNode F
  update_node agg total_runs node =
      let entry = Dict.get node.stable_id agg in
      record {
        stable_id = node.stable_id;
        hop = node.hop;
        frequency_ratio =
            at_most_one (float.div (float.of_ℕ (runs_of entry)) (float.of_ℕ total_runs));
        avg_ms = float.div (total_of node entry) (float.of_ℕ (runs_of entry));
      }

  unfoldable pub update_nodes : Agg F → ℕ → List (CallNode F) → List (CallNode F)
  unfolding update_node
  update_nodes agg total_runs [] = []
  update_nodes agg total_runs (node ∷ nodes) =
      update_node agg total_runs node ∷ update_nodes agg total_runs nodes

  unfoldable pub aggregate_frequencies :
      Store F → String → String → List (CallNode F) → ℕ → List (CallNode F) × Store F
  unfolding merge_nodes update_nodes
  aggregate_frequencies r repo entrypoint nodes total_runs =
      let key = agg_key repo entrypoint in
      let agg = merge_nodes nodes (or_empty (Dict.get key r)) in
      (if ltb total_runs 5 then nodes else update_nodes agg total_runs nodes, Dict.put key agg r)

  abbrev or_default : F → Option F → F
  or_default d none = d
  or_default d (some x) = x

  -- `data[i]`, for an index in range.
  abbrev pub at_index : List F → ℕ → F
  at_index xs i = or_default (float.of_ℕ 0) (get_elem? xs i)

  -- `statistics.median` of a sorted list that is not empty.
  abbrev pub median : List F → F
  median xs =
      let n = length xs in
      if eqb (n % 2) 1
      then at_index xs (n / 2)
      else float.div (float.add (at_index xs (n / 2 - 1)) (at_index xs (n / 2))) (float.of_ℕ 2)

  -- `int(len * 0.99)` is computed exactly; the product of floats agrees with it.
  unfoldable pub compute_percentiles : List F → F × F
  unfolding sorted
  compute_percentiles [] = (float.of_ℕ 0, float.of_ℕ 0)
  compute_percentiles (v ∷ []) = (v, v)
  compute_percentiles (v ∷ w ∷ ds) =
      let sorted_d = sorted float.lt (v ∷ w ∷ ds) in
      let n = length sorted_d in (median sorted_d, at_index sorted_d (min (n * 99 / 100) (n - 1)))
