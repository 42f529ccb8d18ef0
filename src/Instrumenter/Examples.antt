-- ===== src/Instrumenter/Examples.antt =====
-- A session that is opened and never run, and two that are opened at the same time.
use tersecontext.Prelude.{
  Bool, String, false, false≢true, none, some, List, [], ◌∷◌, ◌≡◌, refl, arith,
}
use tersecontext.Prelude.Dict
use tersecontext.Instrumenter.{
  InstrumentRequest, TraceSession, Pool, check, store, stamp, pop_session, instrument, run, evict,
  here, next, checked, stored, stamped, session_popped,
}
use tersecontext.Instrumenter.Sessions.{IsPool, Reach-IsPool}

abbrev request : InstrumentRequest
request = record {
  stable_id = "f";
  file_path = "a.py";
  repo = "shop";
  capture_args = [];
  coverage_filter = none;
}

abbrev closed : Pool
closed = record {
  sessions = [];
  session_created_at = [];
  sessions_created = 0;
  runs_completed = 0;
  admitted = 0;
  unstamped = [];
}

abbrev opened : Pool
opened = (instrument ("*" ∷ []) request "1" (some "/tmp/1") 5 closed).1

abbrev raises : TraceSession → Bool
raises session = false

opened_at_5 : Dict.get "1" opened.session_created_at ≡ some 5
unfolding instrument Dict.get Dict.put
opened_at_5 = refl

evicted_at_90 : (evict 90 (run raises "1" opened).1).sessions ≡ []
unfolding instrument run evict Dict.get Dict.put Dict.remove
evicted_at_90 = refl

closed-IsPool : IsPool 2 closed
unfolding Dict.get
closed-IsPool = record { bounded = omega arith; timed = λ sid e. absurd (false≢true e) }

-- Two requests pass the test of the size before either stores its session.
abbrev args : List String
args = "*" ∷ []

abbrev both_admitted : Pool
both_admitted = (check args request (check args request closed).1).1

abbrev both_stored : Pool
both_stored =
    (store args request "2" (some "/tmp/2")
      (store args request "1" (some "/tmp/1") both_admitted).1).1

abbrev stamped_pool : Pool
stamped_pool = pop_session "1" (stamp args "1" 5 both_stored).1

Reach-IsPool_example : IsPool 2 stamped_pool
unfolding check store stamp Dict.put
Reach-IsPool_example =
    Reach-IsPool args 2
      (next
        (next
          (next
            (next
              (next (next here (checked request closed (omega arith)))
                (checked request (check args request closed).1 (omega arith)))
              (stored request "1" (some "/tmp/1") both_admitted (omega arith)))
            (stored request "2" (some "/tmp/2")
              (store args request "1" (some "/tmp/1") both_admitted).1 (omega arith)))
          (stamped "1" 5 both_stored refl))
        (session_popped "1" (stamp args "1" 5 both_stored).1))
      closed-IsPool
