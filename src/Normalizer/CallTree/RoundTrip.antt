-- ===== src/Normalizer/CallTree/RoundTrip.antt =====
-- `_reconstruct_sync` against the calls that a trace records.
use tersecontext.Prelude.{
  ℕ, ◌+◌, ◌≡◌, Bool, true, false, List, [], ◌∷◌, ◌++◌, refl, ap, ◌∙◌, append_assoc, append-nil,
  arith, if◌then◌else◌,
}
use tersecontext.Prelude.Float.{Float}
use tersecontext.Normalizer.Models.{call, return, exception, TraceEvent, CallNode}
use tersecontext.Normalizer.CallTree.{
  Walk, OpenCall, start, non_negative, close, visit, walk, reconstruct_sync,
}

-- The calls of a run: each with what it called in turn, and the calls that came behind it. The
-- exit event may be a return or an exception, and may name any function.
pub data Calls (F : Type 0) : Type 0 where
  nothing : Calls F
  called : (entry exit : TraceEvent F) (raised : Bool) (inner later : Calls F) → Calls F

module _ {F : Type 0} where
  -- The events that the tracer emits for the calls.
  unfoldable pub events_of : Calls F → List (TraceEvent F)
  events_of nothing = []
  events_of (called entry exit raised inner later) =
      record entry { type = call }
      ∷ (events_of inner
          ++ (record exit { type = if raised then exception else return } ∷ events_of later))

module _ {F : Type 0} ⦃float : Float F⦄ where
  -- The calls in the order in which they end, each with its depth and its time.
  unfoldable pub nodes_of : ℕ → Calls F → List (CallNode F)
  nodes_of d nothing = []
  nodes_of d (called entry exit raised inner later) =
      nodes_of (d + 1) inner
      ++ (record {
        stable_id = entry.fn;
        hop = d;
        frequency_ratio = float.of_ℕ 1;
        avg_ms = non_negative (float.sub exit.timestamp_ms entry.timestamp_ms);
      }
          ∷ nodes_of d later)

  pub walk-append :
      (xs ys : List (TraceEvent F)) (w : Walk F) → walk (xs ++ ys) w ≡ walk ys (walk xs w)
  unfolding walk
  walk-append [] ys w = refl
  walk-append (x ∷ xs) ys w = walk-append xs ys (visit x.type x w)

  abbrev pub add_nodes : Walk F → List (CallNode F) → Walk F
  add_nodes w ns = record w { nodes = w.nodes ++ ns }

  visit_exit :
      (raised : Bool) (ev : TraceEvent F) (c : OpenCall F) (stack : List (OpenCall F))
      (ns : List (CallNode F)) (d : ℕ)
      → visit
          (if raised then exception else return)
          ev
          (record { stack = c ∷ stack; nodes = ns; depth = d + 1 })
        ≡ record { stack = stack; nodes = ns ++ close c ev.timestamp_ms ∷ []; depth = d }
  unfolding visit
  visit_exit true ev c stack ns d = ground arith
  visit_exit false ev c stack ns d = ground arith

  pub walk-events_of :
      (calls : Calls F) (w : Walk F)
      → walk (events_of calls) w ≡ add_nodes w (nodes_of w.depth calls)
  unfolding events_of nodes_of walk close
  walk-events_of nothing w = ground (arith, append-nil w.nodes)
  walk-events_of (called entry exit raised inner later) w =
      let c : OpenCall F = record {
        fn = entry.fn;
        call_depth = w.depth;
        call_ts = entry.timestamp_ms;
      } in
      let w' : Walk F = record { stack = c ∷ w.stack; nodes = w.nodes; depth = w.depth + 1 } in
      let ns = nodes_of (w.depth + 1) inner in
      let n = close c exit.timestamp_ms in
      let exit' : TraceEvent F = record exit { type = if raised then exception else return } in
      rw walk-append (
        rw (walk-events_of inner w') (
          rw (visit_exit raised exit' c w.stack (w.nodes ++ ns) w.depth) (
            walk-events_of later
              (record { stack = w.stack; nodes = (w.nodes ++ ns) ++ n ∷ []; depth = w.depth })
            ∙ simp append_assoc)))

  -- The walk recovers the calls from the events that a tracer emits for them: one node for each
  -- call, in the order in which the calls end, with the depth of the call as its hop and the time
  -- from its call to its return or exception, whatever function the exit event names.
  pub reconstruct_sync-events_of :
      (calls : Calls F) → reconstruct_sync (events_of calls) ≡ nodes_of 0 calls
  unfolding reconstruct_sync
  reconstruct_sync-events_of calls = ap (λ (w : Walk F). w.nodes) (walk-events_of calls start)
