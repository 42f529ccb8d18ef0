-- ===== src/Instrumenter.antt =====
-- services/instrumenter/app/main.py: the pool of trace sessions, with the endpoints /instrument and /run and
-- the eviction task. The endpoints run in threads: `Step` interleaves their accesses to the shared
-- dictionaries. Running the traced program, temporary directories, session numbers, the clock and the
-- number of threads are parameters.
pub mod Sessions
pub mod Trace
mod Examples
use tersecontext.Prelude.{
  ℕ, suc, ◌+◌, ◌-◌, String, Bool, true, false, ◌||◌, not, Option, none, some, List, [], ◌∷◌, ◌==◌,
  ltb, length, elem, ◌≡◌, ◌<◌, ◌≤◌, if◌then◌else◌,
}
use tersecontext.Prelude.Dict
use tersecontext.Prelude.Dict.{Dict}

-- models.py
pub record InstrumentRequest : Type 0 where
  pub stable_id : String
  pub file_path : String
  pub repo : String
  pub capture_args : List String
  pub coverage_filter : Option (List String)

-- trace.py, less what the trace function collects while the program runs.
pub record TraceSession : Type 0 where
  pub session_id : String
  pub file_path : String
  pub repo : String
  pub stable_id : String
  pub tempdir : String
  pub capture_args : List String
  pub coverage_filter : Option (List String)

-- The module's state, the number of requests between the test of the size and their insertion, and the
-- sessions that are stored and have no time yet.
pub record Pool : Type 0 where
  pub sessions : Dict TraceSession
  pub session_created_at : Dict ℕ
  pub sessions_created : ℕ
  pub runs_completed : ℕ
  pub admitted : ℕ
  pub unstamped : List String

abbrev pub max_sessions : ℕ
max_sessions = 100

-- The answers of both endpoints; `failed` is an exception that leaves the endpoint.
pub data Reply : Type 0 where
  bad_request unavailable not_found failed completed : Reply
  ready : String → Reply

abbrev pub or_default : List String → List String → List String
or_default default [] = default
or_default default (a ∷ args) = a ∷ args

-- `set(filter) if filter else None`
abbrev pub unless_nil : Option (List String) → Option (List String)
unless_nil none = none
unless_nil (some []) = none
unless_nil (some (f ∷ fs)) = some (f ∷ fs)

abbrev pub is_incomplete : InstrumentRequest → Bool
is_incomplete req = req.stable_id == "" || req.file_path == "" || req.repo == ""

abbrev pub without : String → List String → List String
without k [] = []
without k (j ∷ js) = let rest = without k js in if j == k then rest else j ∷ rest

module _ (default_capture_args : List String) where
  abbrev pub session_of : InstrumentRequest → String → String → TraceSession
  session_of req session_id td = record {
    session_id = session_id;
    file_path = req.file_path;
    repo = req.repo;
    stable_id = req.stable_id;
    tempdir = td;
    capture_args = or_default default_capture_args req.capture_args;
    coverage_filter = unless_nil req.coverage_filter;
  }

  -- The tests at the beginning; a request that passes them has no answer yet.
  unfoldable pub check : InstrumentRequest → Pool → Option Reply × Pool
  check req p =
      if is_incomplete req
      then (some bad_request, p)
      else if not (ltb (length p.sessions) max_sessions)
      then (some unavailable, p)
      else (none, record p { admitted = suc p.admitted })

  -- `mkdtemp` gives a directory, or raises; then `_sessions[session_id] = session`.
  unfoldable pub store :
      InstrumentRequest → (session_id : String) → Option String → Pool → Option Reply × Pool
  store req session_id none p = (some failed, record p { admitted = p.admitted - 1 })
  store req session_id (some td) p = (
    none,
    record p {
      sessions = Dict.put session_id (session_of req session_id td) p.sessions;
      admitted = p.admitted - 1;
      unstamped = session_id ∷ p.unstamped;
    },
  )

  -- `_session_created_at[session_id] = time.monotonic()`
  unfoldable pub stamp : (session_id : String) → (now : ℕ) → Pool → Reply × Pool
  stamp session_id now p = (
    ready session_id,
    record p {
      session_created_at = Dict.put session_id now p.session_created_at;
      sessions_created = p.sessions_created + 1;
      unstamped = without session_id p.unstamped;
    },
  )

  abbrev pub unless_answered : (Pool → Reply × Pool) → Option Reply × Pool → Reply × Pool
  unless_answered next (some reply, p) = (reply, p)
  unless_answered next (none, p) = next p

  -- The endpoint, when no other thread comes between.
  unfoldable pub instrument :
      InstrumentRequest → (session_id : String) → Option String → (now : ℕ) → Pool → Reply × Pool
  unfolding check store stamp
  instrument req session_id made now p =
      unless_answered (λ q. unless_answered (stamp session_id now) (store req session_id made q))
        (check req p)

-- `_sessions.pop(sid, None)`
abbrev pub pop_session : String → Pool → Pool
pop_session sid p = record p { sessions = Dict.remove sid p.sessions }

-- `_session_created_at.pop(sid, None)`
abbrev pub pop_time : String → Pool → Pool
pop_time sid p = record p { session_created_at = Dict.remove sid p.session_created_at }

abbrev pub forget : String → Pool → Pool
forget sid p = pop_time sid (pop_session sid p)

-- `_runs_completed += 1`
abbrev pub count_run : Pool → Pool
count_run p = record p { runs_completed = p.runs_completed + 1 }

-- The traced program returns, or an exception leaves the endpoint before the session is removed.
abbrev pub run_session :
    (returns : TraceSession → Bool) → String → Option TraceSession → Pool → Reply × Pool
run_session returns session_id none p = (not_found, p)
run_session returns session_id (some session) p =
    if returns session then (completed, count_run (forget session_id p)) else (failed, p)

unfoldable pub run : (returns : TraceSession → Bool) → String → Pool → Reply × Pool
run returns session_id p = run_session returns session_id (Dict.get session_id p.sessions) p

-- `[sid for sid, created in ... if now - created > 60]`; the clock is monotonic.
unfoldable pub expired : ℕ → Dict ℕ → List String
expired now [] = []
expired now ((sid, created) ∷ rest) =
    let more = expired now rest in if ltb 60 (now - created) then sid ∷ more else more

unfoldable pub forget_all : List String → Pool → Pool
forget_all [] p = p
forget_all (sid ∷ sids) p = forget_all sids (forget sid p)

-- One round of `_evict`.
unfoldable pub evict : ℕ → Pool → Pool
unfolding expired forget_all
evict now p = forget_all (expired now p.session_created_at) p

-- One access of a thread or of the eviction task, with at most that many threads behind `check`. Both
-- /run and the eviction pop a session first and its time after that; session numbers are not used twice,
-- so no session of that number is stored in between. `+=` on a counter is taken as one access.
pub data Step (args : List String) (threads : ℕ) : Pool → Pool → Type 0 where
  checked :
      (req : InstrumentRequest) (p : Pool)
      → p.admitted < threads
      → Step args threads p (check args req p).1
  stored :
      (req : InstrumentRequest) (session_id : String) (made : Option String) (p : Pool)
      → 1 ≤ p.admitted
      → Step args threads p (store args req session_id made p).1
  stamped :
      (session_id : String) (now : ℕ) (p : Pool)
      → elem session_id p.unstamped ≡ true
      → Step args threads p (stamp args session_id now p).1
  session_popped : (session_id : String) (p : Pool) → Step args threads p (pop_session session_id p)
  time_popped :
      (session_id : String) (p : Pool)
      → Dict.get session_id p.sessions ≡ none
      → Step args threads p (pop_time session_id p)
  run_counted : (p : Pool) → Step args threads p (count_run p)

pub data Reach (args : List String) (threads : ℕ) (p : Pool) : Pool → Type 0 where
  here : Reach args threads p p
  next : {q k : Pool} → Reach args threads p q → Step args threads q k → Reach args threads p k
