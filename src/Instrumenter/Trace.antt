-- ===== src/Instrumenter/Trace.antt =====
-- services/instrumenter/app/trace.py: what the trace function records of the callbacks of CPython, and
-- the hooks for asyncio tasks.
pub mod Raises
mod Examples
use tersecontext.Prelude.{
  ℕ, suc, String, Bool, true, false, not, Option, none, some, List, [], ◌∷◌, ◌++◌, any, elem,
  if◌then◌else◌,
}
use tersecontext.Prelude.Text.{codes, at_start, anything}
use tersecontext.Normalizer.Models.{
  EventType, call, return, exception, async_call, async_return, TraceEvent,
}

-- A frame as far as it is read; `V` is the type of Python's values.
pub record Frame (V : Type 0) : Type 0 where
  pub co_filename : String
  pub co_name : String
  pub f_lineno : ℕ
  pub f_locals : V

-- The events of `sys.settrace`; `on_other` stands for "line" and "opcode".
pub data Callback : Type 0 where
  on_call on_return on_exception on_other : Callback

-- The argument of a callback: a value such as `None`, or the triple of an exception, with the name of
-- its type.
pub data Arg (V : Type 0) : Type 0 where
  value : V → Arg V
  exc_info : V → String → Arg V

-- One call of the trace function, at a time and in a task.
pub record Traced (F V : Type 0) : Type 0 where
  pub frame : Frame V
  pub event : Callback
  pub arg : Arg V
  pub timestamp_ms : F
  pub task_id : ℕ

-- What the session and the module fix: the prefixes, the filter and the patterns, `fnmatch` of a pattern
-- with a name, and the serializer.
pub record Settings (V : Type 0) : Type 0 where
  pub exclude_prefixes : List String
  pub coverage_filter : Option (List String)
  pub capture_args : List String
  pub fnmatch : String → String → Bool
  pub safe_serialize : V → String

abbrev pub is_outside : Option (List String) → String → Bool
is_outside none filename = false
is_outside (some files) filename = not (elem filename files)

abbrev pub exc_name : {V : Type 0} → Arg V → Option String
exc_name (exc_info v name) = some name
exc_name (value v) = none

abbrev pub as_value : {V : Type 0} → Arg V → V
as_value (value v) = v
as_value (exc_info v name) = v

abbrev pub appended :
    {F : Type 0} → Option (TraceEvent F) → List (TraceEvent F) → List (TraceEvent F)
appended none events = events
appended (some evt) events = events ++ evt ∷ []

module _ {V : Type 0} (settings : Settings V) where
  -- `filename.startswith(_EXCLUDE_PREFIXES)`
  abbrev pub is_excluded : String → Bool
  is_excluded filename =
      any (λ prefix. at_start anything (codes prefix) (codes filename)) settings.exclude_prefixes

  -- The translated patterns, joined by "|".
  abbrev pub matches_capture : String → Bool
  matches_capture fn_name = any (λ p. settings.fnmatch p fn_name) settings.capture_args

module _ {F V : Type 0} (settings : Settings V) where
  abbrev pub plain_event : EventType → Traced F V → TraceEvent F
  plain_event type t = record {
    type = type;
    fn = t.frame.co_name;
    file = t.frame.co_filename;
    line = t.frame.f_lineno;
    timestamp_ms = t.timestamp_ms;
    exc_type = none;
    task_id = some t.task_id;
    args = none;
    return_val = none;
  }

  abbrev pub call_event : Traced F V → TraceEvent F
  call_event t = record (plain_event call t) {
    args =
        if matches_capture settings t.frame.co_name
        then some (settings.safe_serialize t.frame.f_locals)
        else none;
  }

  abbrev pub return_event : Traced F V → TraceEvent F
  return_event t = record (plain_event return t) {
    return_val =
        if matches_capture settings t.frame.co_name
        then some (settings.safe_serialize (as_value t.arg))
        else none;
  }

  abbrev pub exception_event : Traced F V → TraceEvent F
  exception_event t = record (plain_event exception t) { exc_type = exc_name t.arg }

  -- The event of each kind of callback, if it is recorded at all.
  abbrev pub event_for : Callback → Traced F V → Option (TraceEvent F)
  event_for on_call t = some (call_event t)
  event_for on_return t = some (return_event t)
  event_for on_exception t = some (exception_event t)
  event_for on_other t = none

  -- The events of the session after a callback, and whether the function returns itself.
  unfoldable pub trace_func : Traced F V → List (TraceEvent F) → Bool × List (TraceEvent F)
  trace_func t events =
      if is_excluded settings t.frame.co_filename
      then (false, events)
      else if is_outside settings.coverage_filter t.frame.co_filename
      then (true, events)
      else (true, appended (event_for t.event t) events)

  -- A run of the program, by the callbacks that CPython makes.
  unfoldable pub trace_all : List (Traced F V) → List (TraceEvent F) → List (TraceEvent F)
  unfolding trace_func
  trace_all [] events = events
  trace_all (t ∷ callbacks) events = trace_all callbacks (trace_func t events).1

-- A session as the hooks for tasks see it.
pub record Tasks (F : Type 0) : Type 0 where
  pub events : List (TraceEvent F)
  pub task_id_counter : ℕ

module _ {F : Type 0} where
  abbrev pub task_event : EventType → String → F → ℕ → TraceEvent F
  task_event type qualname ts task_id = record {
    type = type;
    fn = qualname;
    file = "";
    line = 0;
    timestamp_ms = ts;
    exc_type = none;
    task_id = some task_id;
    args = none;
    return_val = none;
  }

  -- `_patched_create_task`: the number of the task comes back.
  unfoldable pub create_task : String → F → Tasks F → ℕ × Tasks F
  create_task qualname ts s =
      let child_task_id = suc s.task_id_counter in
      (
        child_task_id,
        record {
          events = s.events ++ task_event async_call qualname ts child_task_id ∷ [];
          task_id_counter = child_task_id;
        },
      )

  -- The `finally` of `_wrapper`, however the task ends.
  unfoldable pub task_ended : String → F → ℕ → Tasks F → Tasks F
  task_ended qualname ts child_task_id s = record s {
    events = s.events ++ task_event async_return qualname ts child_task_id ∷ [];
  }

  -- `_patched_gather`: a task for each coroutine, in order; futures stay as they are.
  unfoldable pub gather : List (Bool × String × F) → Tasks F → Tasks F
  unfolding create_task
  gather [] s = s
  gather ((is_coroutine, qualname, ts) ∷ coros) s =
      let next = gather coros in if is_coroutine then next (create_task qualname ts s).1 else next s
