-- ===== src/Normalizer/Handler/Emitted.antt =====
-- What the normalizer emits, and what a failing Redis leaves behind.
use tersecontext.Prelude.{
  ℕ, suc, ◌+◌, String, Bool, true, false, Option, none, some, List, [], ◌∷◌, ◌++◌, ◌≡◌, ◌⊎◌, sym,
  subst, not, eqb, ◌<◌, length, length-append, All, All-append, arith, inl, inr,
}
use tersecontext.Prelude.Dict
use tersecontext.Prelude.Float.{Float, FloatLaws}
use tersecontext.Prelude.Effects.{failure, ok, raise}
use tersecontext.Consumer.{Redis, Process, run}
use tersecontext.Consumer.Keeps.{run-Keeps}
use tersecontext.Normalizer.Models.{RawTrace, CallNode, ExecutionPath}
use tersecontext.Normalizer.CallTree.{reconstruct_call_tree}
use tersecontext.Normalizer.CallTree.Ratios.{IsOne, reconstruct_call_tree-IsOne}
use tersecontext.Normalizer.Frequencies.{Store, agg_key, or_empty}
use tersecontext.Normalizer.Frequencies.Counts.{
  occurrences, runs_at, IsRatio, aggregate_frequencies-nodes, aggregate_frequencies-runs,
}
use tersecontext.Normalizer.Effects.Distinct.{IsDistinct, classify_side_effects-IsDistinct}
use tersecontext.Normalizer.Reconcile.{Driver}
use tersecontext.Normalizer.Handler.{
  Normalizer, repo_or_unknown, normalize_nodes, execution_path, process_trace, process_sync,
  count_event, handle, normalizer,
}

module _ {F : Type 0} ⦃float : Float F⦄ where
  -- What holds of an emitted path: no frequency is above 1, and no side effect is listed twice.
  pub record IsPath (path : ExecutionPath F) : Type 0 where
    pub ratios : All IsRatio path.call_sequence
    pub distinct : IsDistinct path.side_effects

  All-IsRatio : FloatLaws float → (nodes : List (CallNode F)) → All IsOne nodes → All IsRatio nodes
  All-IsRatio laws [] h = tt
  All-IsRatio laws (n ∷ nodes) h = (rw h.0 (laws.le_refl _), All-IsRatio laws nodes h.1)

module _ {F : Type 0} ⦃float : Float F⦄ (laws : FloatLaws float) (lower : String → List ℕ)
    (driver : Option Driver) (parse : String → Option (RawTrace F)) (is_up : ℕ → Bool) where
  execution_path-IsPath :
      (trace : RawTrace F) (r : Store F)
      → IsPath (execution_path lower driver trace (normalize_nodes trace r).0)
  unfolding execution_path normalize_nodes
  execution_path-IsPath trace r =
      let nodes = reconstruct_call_tree trace.events in
      record {
        ratios =
            (aggregate_frequencies-nodes laws r (repo_or_unknown trace.repo)
              trace.entrypoint_stable_id nodes _
              (All-IsRatio laws nodes (reconstruct_call_tree-IsOne trace.events))).1;
        distinct = classify_side_effects-IsDistinct lower trace.events;
      }

  -- Either nothing is emitted, or one path that is sound.
  process_trace_emits :
      (trace : RawTrace F) (s : Normalizer F)
      → ((process_trace lower driver parse is_up trace s).1.emitted ≡ s.emitted)
        ⊎ ((process_trace lower driver parse is_up trace s).1.emitted
            ≡ s.emitted
              ++ execution_path lower driver trace (normalize_nodes trace s.aggregates).0 ∷ [])
  unfolding process_trace
  process_trace_emits trace s = ground arith

  abbrev pub AllSound : Normalizer F → Type 0
  AllSound s = All IsPath s.emitted

  process_sync-AllSound :
      (trace : Option (RawTrace F)) (s : Normalizer F)
      → AllSound s
      → AllSound (process_sync lower driver parse is_up trace s).1
  unfolding process_sync
  process_sync-AllSound none s h = h
  process_sync-AllSound (some trace) s h = elim (process_trace_emits trace s) [
    | inl same ↦ subst (All IsPath) (sym same) h
    | inr more ↦
        subst (All IsPath) (sym more)
          (All-append IsPath s.emitted _ h (execution_path-IsPath trace s.aggregates, tt))
  ]

  emitted-handle :
      (raw : String) (s : Normalizer F)
      → (handle lower driver parse is_up (some raw) s).1.emitted
        ≡ (process_sync lower driver parse is_up (parse raw) s).1.emitted
  unfolding handle count_event
  emitted-handle raw s = ground arith

  handle-AllSound :
      (event : Option String) (s : Normalizer F)
      → AllSound s
      → AllSound (handle lower driver parse is_up event s).1
  handle-AllSound none s h = unfold handle in h
  handle-AllSound (some raw) s h =
      subst (All IsPath) (sym (emitted-handle raw s)) (process_sync-AllSound (parse raw) s h)

  -- Whatever the messages, the rounds and the answers of Redis, malformed messages and failing
  -- commands included, every execution path that the service has emitted has no frequency above 1
  -- and no side effect twice, if that held at the start.
  pub service_emits_sound :
      {R : Type 0} (redis : Redis R (Option String)) (n : ℕ) (p : Process R (Normalizer F))
      → All IsPath p.self.emitted
      → All IsPath (run redis (normalizer lower driver parse is_up) n p).1.self.emitted
  service_emits_sound redis n p h =
      run-Keeps redis (normalizer lower driver parse is_up) {P = AllSound} handle-AllSound
        (λ s k. k) n p h

-- The number of runs recorded for a function under the key of a trace.
abbrev pub recorded : {F : Type 0} → String → RawTrace F → Normalizer F → ℕ
recorded k trace s = runs_at k (
    or_empty
      (Dict.get (agg_key (repo_or_unknown trace.repo) trace.entrypoint_stable_id) s.aggregates))

module _ {F : Type 0} ⦃float : Float F⦄ where
  recorded-normalize_nodes :
      (k : String) (trace : RawTrace F) (r : Store F)
      → runs_at k (
          or_empty (
            Dict.get
              (agg_key (repo_or_unknown trace.repo) trace.entrypoint_stable_id)
              (normalize_nodes trace r).1))
        ≡ occurrences k (reconstruct_call_tree trace.events)
          + runs_at k (
              or_empty
                (Dict.get (agg_key (repo_or_unknown trace.repo) trace.entrypoint_stable_id) r))
  unfolding normalize_nodes
  recorded-normalize_nodes k trace r =
      aggregate_frequencies-runs r (repo_or_unknown trace.repo) trace.entrypoint_stable_id k
        (reconstruct_call_tree trace.events) _

  -- The state behind the four commands of an attempt that emits nothing.
  abbrev left_by : RawTrace F → Normalizer F → Normalizer F
  left_by trace s = record s {
    aggregates = (normalize_nodes trace s.aggregates).1;
    commands = suc (suc (suc (suc s.commands)));
  }

  module _ (lower : String → List ℕ) (driver : Option Driver) (parse : String → Option (RawTrace F))
      (is_up : ℕ → Bool) (trace : RawTrace F) (s : Normalizer F) (up0 : is_up s.commands ≡ true)
      (up1 : is_up (suc s.commands) ≡ true) (up2 : is_up (suc (suc s.commands)) ≡ true) where
    process_trace_done :
        is_up (suc (suc (suc s.commands))) ≡ true
        → process_trace lower driver parse is_up trace s ≡ (
          ok tt,
          record (left_by trace s) {
            emitted =
                s.emitted
                ++ execution_path lower driver trace (normalize_nodes trace s.aggregates).0 ∷ [];
          },
        )
    unfolding process_trace
    process_trace_done up3 = rw (up0, up1, up2, up3)

    process_trace_lost :
        is_up (suc (suc (suc s.commands))) ≡ false
        → process_trace lower driver parse is_up trace s
          ≡ (raise (failure "redis"), left_by trace s)
    unfolding process_trace
    process_trace_lost up3 = rw (up0, up1, up2, up3)

  -- If Redis fails at XADD, the attempt raises and emits nothing, but its counts stay stored: when the
  -- message is handled again, every call of the trace is counted a second time, and one path is emitted.
  pub retry_counts_twice :
      (lower : String → List ℕ) (driver : Option Driver) (parse : String → Option (RawTrace F))
      (is_up : ℕ → Bool) (raw k : String) (trace : RawTrace F) (s : Normalizer F)
      → parse raw ≡ some trace
      → ((i : ℕ) → is_up i ≡ not (eqb i (s.commands + 3)))
      → let first = handle lower driver parse is_up (some raw) s in
        let second = handle lower driver parse is_up (some raw) first.1 in
        let calls = occurrences k (reconstruct_call_tree trace.events) in
        (first.0 ≡ raise (failure "redis"))
        × (first.1.emitted ≡ s.emitted)
        × (second.0 ≡ ok tt)
        × (length second.1.emitted ≡ length s.emitted + 1)
        × (recorded k trace second.1 ≡ calls + calls + recorded k trace s)
  unfolding handle process_sync count_event
  retry_counts_twice lower driver parse is_up raw k trace s parsed up =
      let c = s.commands in
      let s' = left_by trace s in
      let answered : (i : ℕ) → c + 3 < i → is_up i ≡ true = λ i h. ground (arith, up i) in
      let lost =
        process_trace_lost lower driver parse is_up trace s (ground (arith, up c))
          (ground (arith, up (suc c))) (ground (arith, up (suc (suc c))))
          (ground (arith, up (suc (suc (suc c))))) in
      let done =
        process_trace_done lower driver parse is_up trace s' (answered _ (omega arith))
          (answered _ (omega arith)) (answered _ (omega arith)) (answered _ (omega arith)) in
      ground (
        arith,
        parsed,
        lost,
        done,
        recorded-normalize_nodes k trace s.aggregates,
        recorded-normalize_nodes k trace s'.aggregates,
        length-append s.emitted
            (execution_path lower driver trace (normalize_nodes trace s'.aggregates).0 ∷ []),
      )
