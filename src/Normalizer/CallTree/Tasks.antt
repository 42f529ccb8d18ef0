-- ===== src/Normalizer/CallTree/Tasks.antt =====
-- `reconstruct_call_tree` on a trace with task numbers.
use tersecontext.Prelude.{
  ℕ, ◌≡◌, Bool, true, false, ◌&&◌, not, String, List, [], ◌∷◌, ◌++◌, refl, sym, keep, any, eqb,
  append_assoc, append-nil, arith, if◌then◌else◌,
}
use tersecontext.Prelude.Float.{Float}
use tersecontext.Normalizer.Models.{EventType, async_call, async_return, TraceEvent, CallNode}
use tersecontext.Normalizer.CallTree.{
  get_task, append_task, is_some, or_zero, Partition, file_event, partition, task_trees, flatten,
  reconstruct_sync, reconstruct_call_tree,
}

abbrev is_async : EventType → Bool
is_async async_call = true
is_async async_return = true
is_async _ = false

firsts : List (ℕ × String) → List ℕ
firsts [] = []
firsts ((t, fn) ∷ links) = t ∷ firsts links

firsts-append : (xs ys : List (ℕ × String)) → firsts (xs ++ ys) ≡ firsts xs ++ firsts ys
unfolding firsts
firsts-append [] ys = refl
firsts-append ((t, fn) ∷ xs) ys = cc (firsts-append xs ys)

module _ {F : Type 0} where
  -- The events of one task, in order.
  abbrev pub of_task : ℕ → List (TraceEvent F) → List (TraceEvent F)
  of_task t = keep (λ ev. not (is_async ev.type) && eqb (or_zero ev.task_id) t)

  -- The tasks that the trace spawns, in order.
  abbrev pub spawned : List (TraceEvent F) → List ℕ
  spawned [] = []
  spawned (ev ∷ events) =
      let rest = spawned events in
      elim ev.type [ async_call ↦ or_zero ev.task_id ∷ rest | _ ↦ rest ]

  get_task-append_task :
      (t u : ℕ) (ev : TraceEvent F) (tasks : List (ℕ × List (TraceEvent F)))
      → get_task t (append_task u ev tasks)
        ≡ (if eqb u t then get_task t tasks ++ ev ∷ [] else get_task t tasks)
  unfolding get_task append_task
  get_task-append_task t u ev [] = ground arith
  get_task-append_task t u ev ((v, evs) ∷ tasks) = ground (arith, get_task-append_task t u ev tasks)

  get_task-partition :
      (t : ℕ) (events : List (TraceEvent F)) (p : Partition F)
      → get_task t (partition events p).tasks ≡ get_task t p.tasks ++ of_task t events
  unfolding partition
  get_task-partition t [] p = sym (append-nil _)
  get_task-partition t (ev ∷ events) p = ground (
    arith,
    get_task-partition t events (file_event ev.type ev p),
    get_task-append_task t (or_zero ev.task_id) ev p.tasks,
    append_assoc (get_task t p.tasks) (ev ∷ []) (of_task t events),
  )

  firsts-partition :
      (events : List (TraceEvent F)) (p : Partition F)
      → firsts (partition events p).async_links ≡ firsts p.async_links ++ spawned events
  unfolding partition firsts
  firsts-partition [] p = sym (append-nil _)
  firsts-partition (ev ∷ events) p = ground (
    arith,
    firsts-partition events (file_event ev.type ev p),
    firsts-append p.async_links ((or_zero ev.task_id, ev.fn) ∷ []),
    append_assoc (firsts p.async_links) (or_zero ev.task_id ∷ []) (spawned events),
  )

module _ {F : Type 0} ⦃float : Float F⦄ where
  get_task-task_trees :
      (t : ℕ) (tasks : List (ℕ × List (TraceEvent F)))
      → get_task t (task_trees tasks) ≡ reconstruct_sync (get_task t tasks)
  unfolding get_task task_trees reconstruct_sync
  get_task-task_trees t [] = refl
  get_task-task_trees t ((u, evs) ∷ tasks) = ground (arith, get_task-task_trees t tasks)

  -- The call trees of some tasks, one behind the other.
  abbrev pub trees_of : List (TraceEvent F) → List ℕ → List (CallNode F)
  trees_of events [] = []
  trees_of events (t ∷ ts) = reconstruct_sync (of_task t events) ++ trees_of events ts

  flatten-task_trees :
      (events : List (TraceEvent F)) (tasks : List (ℕ × List (TraceEvent F)))
      (links : List (ℕ × String))
      → ((t : ℕ) → get_task t tasks ≡ of_task t events)
      → flatten links (task_trees tasks) ≡ trees_of events (firsts links)
  unfolding flatten firsts
  flatten-task_trees events tasks [] h = refl
  flatten-task_trees events tasks ((t, fn) ∷ links) h =
      cc (get_task-task_trees t tasks, h t, flatten-task_trees events tasks links h)

  -- A trace with task numbers gives the call tree of task 0, and behind it that of each spawned task
  -- in the order of the spawns; each is the synchronous walk over the events of that task alone,
  -- so how the tasks were interleaved does not matter.
  pub reconstruct_call_tree-eq-trees_of :
      (events : List (TraceEvent F))
      → any (λ (ev : TraceEvent F). is_some ev.task_id) events ≡ true
      → reconstruct_call_tree events ≡ trees_of events (0 ∷ spawned events)
  unfolding reconstruct_call_tree
  reconstruct_call_tree-eq-trees_of events h =
      let empty : Partition F = record { tasks = []; async_links = [] } in
      let p = partition events empty in
      let own : (t : ℕ) → get_task t p.tasks ≡ of_task t events =
        λ t. unfold get_task in get_task-partition t events empty in
      let links : firsts p.async_links ≡ spawned events =
        unfold firsts in firsts-partition events empty in
      rw h (
        cc (
          get_task-task_trees 0 p.tasks,
          own 0,
          flatten-task_trees events p.tasks p.async_links own,
          links,
        ))
