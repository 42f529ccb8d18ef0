-- ===== src/Normalizer/CallTree.antt =====
-- services/trace-normalizer/app/normalizer.py: `_reconstruct_sync`, which pairs calls with returns
-- on a stack, and `reconstruct_call_tree`, which runs it for each task of an asynchronous trace.
pub mod RoundTrip
pub mod Caught
pub mod Account
pub mod Ratios
pub mod Tasks
use tersecontext.Prelude.{
  ℕ, ◌+◌, ◌-◌, max, String, Bool, true, false, Option, none, some, List, [], ◌∷◌, ◌++◌, any, eqb,
  if◌then◌else◌,
}
use tersecontext.Prelude.Float.{Float}
use tersecontext.Normalizer.Models.{
  EventType, call, return, exception, async_call, async_return, TraceEvent, CallNode,
}

-- An open call: its function, its depth and its time stamp. `stack[-1]` is the head.
pub record OpenCall (F : Type 0) : Type 0 where
  pub fn : String
  pub call_depth : ℕ
  pub call_ts : F

pub record Walk (F : Type 0) : Type 0 where
  pub stack : List (OpenCall F)
  pub nodes : List (CallNode F)
  pub depth : ℕ

abbrev pub start : {F : Type 0} → Walk F
start = record { stack = []; nodes = []; depth = 0 }

module _ {F : Type 0} ⦃float : Float F⦄ where
  -- `max(0.0, duration)`
  abbrev pub non_negative : F → F
  non_negative d = if float.lt (float.of_ℕ 0) d then d else float.of_ℕ 0

  pub close : OpenCall F → F → CallNode F
  close c ts = record {
    stable_id = c.fn;
    hop = c.call_depth;
    frequency_ratio = float.of_ℕ 1;
    avg_ms = non_negative (float.sub ts c.call_ts);
  }

  -- `elif ev.type in ("return", "exception") and stack`
  pop : F → List (OpenCall F) → Walk F → Walk F
  pop ts [] w = w
  pop ts (c ∷ stack) w = record {
    stack = stack;
    nodes = w.nodes ++ close c ts ∷ [];
    depth = max 0 (w.depth - 1);
  }

  visit : EventType → TraceEvent F → Walk F → Walk F
  unfolding pop
  visit call ev w = record {
    stack = record { fn = ev.fn; call_depth = w.depth; call_ts = ev.timestamp_ms } ∷ w.stack;
    nodes = w.nodes;
    depth = w.depth + 1;
  }
  visit return ev w = pop ev.timestamp_ms w.stack w
  visit exception ev w = pop ev.timestamp_ms w.stack w
  visit async_call ev w = w
  visit async_return ev w = w

  pub walk : List (TraceEvent F) → Walk F → Walk F
  unfolding visit
  walk [] w = w
  walk (ev ∷ events) w = walk events (visit ev.type ev w)

  unfoldable pub reconstruct_sync : List (TraceEvent F) → List (CallNode F)
  unfolding walk close
  reconstruct_sync events = (walk events start).nodes

-- A `dict` keyed by task numbers, in the order of first insertion.
module _ {V : Type 0} where
  pub get_task : ℕ → List (ℕ × List V) → List V
  get_task t [] = []
  get_task t ((u, vs) ∷ tasks) = if eqb u t then vs else get_task t tasks

  -- `tasks.setdefault(tid, []).append(ev)`
  pub append_task : ℕ → V → List (ℕ × List V) → List (ℕ × List V)
  append_task t v [] = (t, v ∷ []) ∷ []
  append_task t v ((u, vs) ∷ tasks) =
      if eqb u t then (u, vs ++ v ∷ []) ∷ tasks else (u, vs) ∷ append_task t v tasks

abbrev pub is_some : {A : Type 0} → Option A → Bool
is_some none = false
is_some (some a) = true

-- `ev.task_id if ev.task_id is not None else 0`
abbrev pub or_zero : Option ℕ → ℕ
or_zero none = 0
or_zero (some t) = t

pub record Partition (F : Type 0) : Type 0 where
  pub tasks : List (ℕ × List (TraceEvent F))
  pub async_links : List (ℕ × String)

module _ {F : Type 0} where
  unfoldable pub file_event : EventType → TraceEvent F → Partition F → Partition F
  unfolding append_task
  file_event async_call ev p = record p {
    async_links = p.async_links ++ (or_zero ev.task_id, ev.fn) ∷ [];
  }
  file_event async_return ev p = p
  file_event _ ev p = record p { tasks = append_task (or_zero ev.task_id) ev p.tasks }

  unfoldable pub partition : List (TraceEvent F) → Partition F → Partition F
  unfolding file_event
  partition [] p = p
  partition (ev ∷ events) p = partition events (file_event ev.type ev p)

  unfoldable pub flatten : List (ℕ × String) → List (ℕ × List (CallNode F)) → List (CallNode F)
  unfolding get_task
  flatten [] trees = []
  flatten ((t, fn) ∷ links) trees = get_task t trees ++ flatten links trees

module _ {F : Type 0} ⦃float : Float F⦄ where
  unfoldable pub task_trees : List (ℕ × List (TraceEvent F)) → List (ℕ × List (CallNode F))
  task_trees [] = []
  task_trees ((t, events) ∷ tasks) = (t, reconstruct_sync events) ∷ task_trees tasks

  unfoldable pub reconstruct_call_tree : List (TraceEvent F) → List (CallNode F)
  unfolding reconstruct_sync partition task_trees flatten
  reconstruct_call_tree events =
      if any (λ (ev : TraceEvent F). is_some ev.task_id) events
      then (let p = partition events (record { tasks = []; async_links = [] }) in
          let trees = task_trees p.tasks in get_task 0 trees ++ flatten p.async_links trees)
      else reconstruct_sync events
