-- ===== src/Normalizer/CallTree/Ratios.antt =====
-- A reconstructed call tree gives every call the frequency 1.
use tersecontext.Prelude.{
  ℕ, ◌≡◌, String, List, [], ◌∷◌, refl, inl, inr, Bool-cases, any, eqb, All, All-append,
}
use tersecontext.Prelude.Float.{Float}
use tersecontext.Normalizer.Models.{EventType, return, exception, TraceEvent, CallNode}
use tersecontext.Normalizer.CallTree.{
  OpenCall, Walk, start, close, pop, visit, walk, reconstruct_sync, get_task, is_some, partition,
  task_trees, flatten, reconstruct_call_tree,
}

module _ {F : Type 0} ⦃float : Float F⦄ where
  abbrev pub IsOne : CallNode F → Type 0
  IsOne n = n.frequency_ratio ≡ float.of_ℕ 1

  pop-IsOne :
      (ts : F) (stack : List (OpenCall F)) (w : Walk F)
      → All IsOne w.nodes
      → All IsOne (pop ts stack w).nodes
  unfolding pop close
  pop-IsOne ts [] w h = h
  pop-IsOne ts (c ∷ stack) w h = All-append IsOne w.nodes _ h (refl, tt)

  visit-IsOne :
      (t : EventType) (ev : TraceEvent F) (w : Walk F)
      → All IsOne w.nodes
      → All IsOne (visit t ev w).nodes
  unfolding visit
  visit-IsOne return ev w h = pop-IsOne ev.timestamp_ms w.stack w h
  visit-IsOne exception ev w h = pop-IsOne ev.timestamp_ms w.stack w h
  visit-IsOne _ ev w h = h

  walk-IsOne :
      (events : List (TraceEvent F)) (w : Walk F)
      → All IsOne w.nodes
      → All IsOne (walk events w).nodes
  unfolding walk
  walk-IsOne [] w h = h
  walk-IsOne (ev ∷ events) w h = walk-IsOne events (visit ev.type ev w) (visit-IsOne ev.type ev w h)

  reconstruct_sync-IsOne : (events : List (TraceEvent F)) → All IsOne (reconstruct_sync events)
  unfolding reconstruct_sync
  reconstruct_sync-IsOne events = walk-IsOne events start tt

  get_task-IsOne :
      (t : ℕ) (tasks : List (ℕ × List (TraceEvent F))) → All IsOne (get_task t (task_trees tasks))
  unfolding get_task task_trees
  get_task-IsOne t [] = tt
  get_task-IsOne t ((u, events) ∷ tasks) = elim (Bool-cases (eqb u t)) [
    | inl e ↦ rw e (reconstruct_sync-IsOne events)
    | inr e ↦ rw e (get_task-IsOne t tasks)
  ]

  flatten-IsOne :
      (links : List (ℕ × String)) (tasks : List (ℕ × List (TraceEvent F)))
      → All IsOne (flatten links (task_trees tasks))
  unfolding flatten
  flatten-IsOne [] tasks = tt
  flatten-IsOne ((t, fn) ∷ links) tasks =
      All-append IsOne (get_task t (task_trees tasks)) _ (get_task-IsOne t tasks)
        (flatten-IsOne links tasks)

  pub reconstruct_call_tree-IsOne :
      (events : List (TraceEvent F)) → All IsOne (reconstruct_call_tree events)
  unfolding reconstruct_call_tree
  reconstruct_call_tree-IsOne events =
      let tasks = (partition events (record { tasks = []; async_links = [] })).tasks in
      let links = (partition events (record { tasks = []; async_links = [] })).async_links in
      elim (Bool-cases (any (λ (ev : TraceEvent F). is_some ev.task_id) events)) [
        | inl e ↦ rw e (
            All-append IsOne (get_task 0 (task_trees tasks)) _ (get_task-IsOne 0 tasks)
              (flatten-IsOne links tasks))
        | inr e ↦ rw e (reconstruct_sync-IsOne events)
      ]
