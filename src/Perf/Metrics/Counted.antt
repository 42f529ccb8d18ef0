-- ===== src/Perf/Metrics/Counted.antt =====
-- What the loop over a trace counts.
use tersecontext.Prelude.{
  ℕ, suc, ◌+◌, ◌≤◌, String, Option, none, some, List, [], ◌∷◌, ◌++◌, ◌==◌, ◌≡◌, refl, eq_iff,
  length, length-append, arith, if◌then◌else◌,
}
use tersecontext.Prelude.Dict
use tersecontext.Prelude.Dict.{Dict}
use tersecontext.Prelude.Float.{Float}
use tersecontext.Perf.Metrics.{
  EventType, call, return, other, TraceEvent, Calls, fn_key, or_zero, or_nil, take_call, closed,
  visit, walk,
}

abbrev pub is_return : EventType → ℕ
is_return return = 1
is_return _ = 0

module _ {F : Type 0} where
  abbrev pub is_call_of : String → EventType → TraceEvent F → ℕ
  is_call_of key call event = if fn_key event == key then 1 else 0
  is_call_of key _ event = 0

  -- The calls of a function in a trace.
  abbrev pub calls_of : String → List (TraceEvent F) → ℕ
  calls_of key [] = 0
  calls_of key (event ∷ events) = is_call_of key event.type event + calls_of key events

  -- The return events of a trace.
  abbrev pub returns : List (TraceEvent F) → ℕ
  returns [] = 0
  returns (event ∷ events) = is_return event.type + returns events

  module _ ⦃float : Float F⦄ where
    counts-closed :
        (event : TraceEvent F) (found : Option (TraceEvent F × List (TraceEvent F))) (s : Calls F)
        → (closed event found s).fn_counts ≡ s.fn_counts
    counts-closed event none s = refl
    counts-closed event (some (c, stack)) s = refl

    counts-visit :
        (key : String) (t : EventType) (event : TraceEvent F) (s : Calls F)
        → or_zero (Dict.get key (visit t event s).fn_counts)
          ≡ is_call_of key t event + or_zero (Dict.get key s.fn_counts)
    unfolding visit
    counts-visit key call event s = ground (
      arith,
      Dict.get-put (fn_key event) key (or_zero (Dict.get (fn_key event) s.fn_counts) + 1)
          s.fn_counts,
      eq_iff (fn_key event) key,
    )
    counts-visit key return event s =
        ground (arith, counts-closed event (take_call event.fn s.call_stack) s)
    counts-visit key other event s = omega arith

    -- On any events, balanced or not, the call frequency of a function grows by the number of its calls.
    pub fn_counts-walk :
        (key : String) (events : List (TraceEvent F)) (s : Calls F)
        → or_zero (Dict.get key (walk events s).fn_counts)
          ≡ calls_of key events + or_zero (Dict.get key s.fn_counts)
    unfolding walk
    fn_counts-walk key [] s = omega arith
    fn_counts-walk key (event ∷ events) s = omega (
      arith,
      fn_counts-walk key events (visit event.type event s),
      counts-visit key event.type event s,
    )

    -- How many durations a function has.
    abbrev pub samples : String → Calls F → ℕ
    samples key s = length (or_nil (Dict.get key s.fn_durations))

    samples-closed :
        (key : String) (event : TraceEvent F) (found : Option (TraceEvent F × List (TraceEvent F)))
        (s : Calls F)
        → samples key (closed event found s) ≤ suc (samples key s)
    samples-closed key event none s = omega arith
    samples-closed key event (some (c, stack)) s =
        let d = float.sub event.timestamp_ms c.timestamp_ms ∷ [] in
        let old = or_nil (Dict.get (fn_key event) s.fn_durations) in
        ground (
          arith,
          Dict.get-put (fn_key event) key (old ++ d) s.fn_durations,
          eq_iff (fn_key event) key,
          length-append old d,
        )

    samples-visit :
        (key : String) (t : EventType) (event : TraceEvent F) (s : Calls F)
        → samples key (visit t event s) ≤ is_return t + samples key s
    unfolding visit
    samples-visit key call event s = omega arith
    samples-visit key return event s =
        omega (arith, samples-closed key event (take_call event.fn s.call_stack) s)
    samples-visit key other event s = omega arith

    -- A function gets at most one duration for each return event of the trace.
    pub samples-walk-le :
        (key : String) (events : List (TraceEvent F)) (s : Calls F)
        → samples key (walk events s) ≤ returns events + samples key s
    unfolding walk
    samples-walk-le key [] s = omega arith
    samples-walk-le key (event ∷ events) s = omega (
      arith,
      samples-walk-le key events (visit event.type event s),
      samples-visit key event.type event s,
    )
