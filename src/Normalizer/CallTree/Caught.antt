-- ===== src/Normalizer/CallTree/Caught.antt =====
-- The call tree of a run in which a call raises and its caller goes on.
use tersecontext.Prelude.{ℕ, ◌≡◌, ap, ◌∙◌, List, [], ◌∷◌, ◌++◌}
use tersecontext.Prelude.Float.{Float}
use tersecontext.Normalizer.Models.{call, return, exception, TraceEvent, CallNode}
use tersecontext.Normalizer.CallTree.{Walk, non_negative, walk, reconstruct_sync}
use tersecontext.Normalizer.CallTree.RoundTrip.{
  Calls, events_of, nodes_of, walk-append, walk-events_of,
}

module _ {F : Type 0} ⦃float : Float F⦄ where
  -- The events of a call `f` that calls `g`, catches what `g` raises, makes the calls of `later` and
  -- returns: for `g` there is an exception and a return, for `f` another exception.
  abbrev pub caught_events :
      (f g raised left caught done : TraceEvent F) → List (TraceEvent F) → List (TraceEvent F)
  caught_events f g raised left caught done later =
      record f { type = call }
      ∷ record g { type = call }
      ∷ record raised { type = exception }
      ∷ record left { type = return }
      ∷ record caught { type = exception }
      ∷ (later ++ record done { type = return } ∷ [])

  abbrev pub call_node : (entry exit : TraceEvent F) → ℕ → CallNode F
  call_node entry exit hop = record {
    stable_id = entry.fn;
    hop = hop;
    frequency_ratio = float.of_ℕ 1;
    avg_ms = non_negative (float.sub exit.timestamp_ms entry.timestamp_ms);
  }

  -- Both the exception and the return of `g` close a call, so `f` is closed when `g` returns: with too
  -- short a time, and the calls that it makes later stand beside it instead of below it.
  pub reconstruct_sync-caught :
      (f g raised left caught done : TraceEvent F) (later : Calls F)
      → reconstruct_sync (caught_events f g raised left caught done (events_of later))
        ≡ call_node g raised 1 ∷ call_node f left 0 ∷ nodes_of 0 later
  unfolding reconstruct_sync
  reconstruct_sync-caught f g raised left caught done later =
      let ns = call_node g raised 1 ∷ call_node f left 0 ∷ [] in
      let w : Walk F = record { stack = []; nodes = ns; depth = 0 } in
      let end : List (TraceEvent F) = record done { type = return } ∷ [] in
      ap (λ (v : Walk F). v.nodes)
        (walk-append (events_of later) end w ∙ ap (walk end) (walk-events_of later w))
