-- ===== src/Instrumenter/Trace/Raises.antt =====
-- A call that raises, from the trace function to the call tree of the normalizer.
use tersecontext.Prelude.{
  ℕ, false, ◌≡◌, refl, ◌∙◌, sym, ap, Option, none, some, List, [], ◌∷◌, ◌++◌, All, append_assoc,
  append-nil, arith,
}
use tersecontext.Prelude.Float.{Float}
use tersecontext.Normalizer.Models.{TraceEvent, CallNode}
use tersecontext.Normalizer.CallTree.{non_negative, reconstruct_sync}
use tersecontext.Normalizer.CallTree.RoundTrip.{Calls, events_of, nodes_of}
use tersecontext.Normalizer.CallTree.Caught.{reconstruct_sync-caught}
use tersecontext.Instrumenter.Trace.{
  Callback, on_call, on_return, on_exception, Traced, Settings, is_outside, is_excluded, call_event,
  return_event, exception_event, event_for, appended, trace_all,
}

module _ {F V : Type 0} (settings : Settings V) where
  -- The callback is neither pruned nor filtered out.
  abbrev pub IsRecorded : Traced F V → Type 0
  IsRecorded t =
      (is_excluded settings t.frame.co_filename ≡ false)
      × (is_outside settings.coverage_filter t.frame.co_filename ≡ false)

  abbrev pub recorded : List (Traced F V) → List (TraceEvent F)
  recorded [] = []
  recorded (t ∷ callbacks) = appended (event_for settings t.event t) [] ++ recorded callbacks

  appended-append :
      (o : Option (TraceEvent F)) (events : List (TraceEvent F))
      → appended o events ≡ events ++ appended o []
  appended-append none events = ground (arith, append-nil events)
  appended-append (some evt) events = refl

  -- Every callback that is neither pruned nor filtered is recorded, in order.
  trace_all-recorded :
      (callbacks : List (Traced F V)) (events : List (TraceEvent F))
      → All IsRecorded callbacks
      → trace_all settings callbacks events ≡ events ++ recorded callbacks
  unfolding trace_all
  trace_all-recorded [] events h = ground (arith, append-nil events)
  trace_all-recorded (t ∷ callbacks) events h = rw h.0.0 (
      rw h.0.1 (
        trace_all-recorded callbacks (appended (event_for settings t.event t) events) h.1
        ∙ (ap (λ es. es ++ recorded callbacks)
              (appended-append (event_for settings t.event t) events)
            ∙ append_assoc events (appended (event_for settings t.event t) [])
                (recorded callbacks))))

  recorded-append : (xs ys : List (Traced F V)) → recorded (xs ++ ys) ≡ recorded xs ++ recorded ys
  recorded-append [] ys = refl
  recorded-append (x ∷ xs) ys =
      ap (λ es. appended (event_for settings x.event x) [] ++ es) (recorded-append xs ys)
      ∙ sym (append_assoc (appended (event_for settings x.event x) []) (recorded xs) (recorded ys))

  abbrev pub as_event : Callback → Traced F V → Traced F V
  as_event event t = record t { event = event }

  -- The callbacks that CPython makes for a call `f` that calls `g`, catches what `g` raises, makes some more
  -- calls and returns.
  abbrev pub caught_callbacks :
      (f g raised left caught done : Traced F V) → List (Traced F V) → List (Traced F V)
  caught_callbacks f g raised left caught done later =
      as_event on_call f
      ∷ as_event on_call g
      ∷ as_event on_exception raised
      ∷ as_event on_return left
      ∷ as_event on_exception caught
      ∷ (later ++ as_event on_return done ∷ [])

module _ {F V : Type 0} ⦃float : Float F⦄ (settings : Settings V) where
  -- The node that the normalizer makes of two callbacks.
  abbrev pub traced_node : Traced F V → Traced F V → ℕ → CallNode F
  traced_node entry exit hop = record {
    stable_id = entry.frame.co_name;
    hop = hop;
    frequency_ratio = float.of_ℕ 1;
    avg_ms = non_negative (float.sub exit.timestamp_ms entry.timestamp_ms);
  }

  -- The trace function records an exception and then a return for a frame that raises, and the
  -- normalizer takes each of them for the end of a call. So if a traced call `f` catches what `g` raises,
  -- then `f` ends, for the normalizer, when `g` is left: its time is too short, and whatever it calls
  -- later gets the depth 0 of `f` itself. No callback may be pruned or filtered out, and the later calls are
  -- any whose events pair up.
  pub trace_all-caught :
      (f g raised left caught done : Traced F V) (later : List (Traced F V)) (calls : Calls F)
      → All (IsRecorded settings) (caught_callbacks settings f g raised left caught done later)
      → recorded settings later ≡ events_of calls
      → reconstruct_sync
          (trace_all settings (caught_callbacks settings f g raised left caught done later) [])
        ≡ traced_node g raised 1 ∷ traced_node f left 0 ∷ nodes_of 0 calls
  trace_all-caught f g raised left caught done later calls h e =
      let cbs = caught_callbacks settings f g raised left caught done later in
      let last : List (Traced F V) = as_event settings on_return done ∷ [] in
      rw (trace_all-recorded settings cbs [] h) (
        rw (recorded-append settings later last) (
          rw e (
            reconstruct_sync-caught (call_event settings f) (call_event settings g)
              (exception_event settings raised) (return_event settings left)
              (exception_event settings caught) (return_event settings done) calls)))
