-- ===== src/Graph/Enrich/Conflict.antt =====
-- An edge that the conflict detector has marked, under everything that the enricher does.
use tersecontext.Prelude.{
  ℕ, String, Bool, ◌&&◌, Option, none, some, List, [], ◌∷◌, ◌==◌, ◌≡◌, refl, eq_iff, Bool-cases,
  inl, inr, arith,
}
use tersecontext.Prelude.Dict.{Dict}
use tersecontext.Prelude.Float.{Float}
use tersecontext.Prelude.Effects.{Action, then_keeps, try_keeps}
use tersecontext.Consumer.{Redis, Process, run}
use tersecontext.Consumer.Keeps.{run-Keeps}
use tersecontext.Normalizer.Models.{Edge, ExecutionPath}
use tersecontext.Graph.Store.{
  Node, conflict, Rel, Graph, find_rel, merge_rel, update_rels, KeepsKey, find_rel-merge_rel,
  find_rel-update_rels,
}
use tersecontext.Graph.Write.{is_node}
use tersecontext.Graph.Enrich.{
  TraceRecord, set_dynamic, upsert_dynamic_edges, confirm, detect_conflict, downgrade,
  update_node_props_batch, confirm_static_edges, run_conflict_detector, run_staleness_downgrade,
  Enricher, run_statement, unless_empty, write_batch, post_batch, handle, enricher,
}

-- The edge from a to b is marked as a conflict.
pub record IsConflict {F : Type 0} (a b : String) (g : Graph F) : Type 0 where
  pub rel : Rel
  pub found : find_rel a b g.calls ≡ some rel
  pub marked : rel.source ≡ some conflict

pub set_dynamic_keeps : KeepsKey set_dynamic
set_dynamic_keeps = record { source = λ r. refl; target = λ r. refl }

pub confirm_keeps : (now : ℕ) (ids : List String) → KeepsKey (confirm now ids)
unfolding confirm
confirm_keeps now ids = record { source = λ r. ground arith; target = λ r. ground arith }

module _ {F : Type 0} where
  pub detect_keeps : (nodes : Dict (Node F)) → KeepsKey (detect_conflict nodes)
  unfolding detect_conflict
  detect_keeps nodes = record { source = λ r. ground arith; target = λ r. ground arith }

  pub downgrade_keeps : (nodes : Dict (Node F)) → KeepsKey (downgrade nodes)
  unfolding downgrade
  downgrade_keeps nodes = record { source = λ r. ground arith; target = λ r. ground arith }

  module _ (a b : String) where
    update-IsConflict :
        (set : Rel → Rel) (g : Graph F)
        → KeepsKey set
        → ((r : Rel) → r.source ≡ some conflict → (set r).source ≡ some conflict)
        → IsConflict a b g
        → IsConflict a b (record g { calls = update_rels set g.calls })
    update-IsConflict set g keeps stays h = record {
      rel = set h.rel;
      found = rw (find_rel-update_rels set keeps) (rw h.found refl);
      marked = stays h.rel h.marked;
    }

    merge-IsConflict :
        (c d : String) (g : Graph F)
        → IsConflict a b g
        → IsConflict a b (record g { calls = merge_rel c d set_dynamic g.calls })
    merge-IsConflict c d g h = elim (Bool-cases (c == a && d == b)) [
      | inl same ↦ record {
        rel = set_dynamic h.rel;
        found = ground (
          arith,
          find_rel-merge_rel set_dynamic set_dynamic_keeps c d a b g.calls,
          same,
          h.found,
          eq_iff c a,
          eq_iff d b,
        );
        marked = ground (arith, h.marked);
      }
      | inr other ↦ record {
        rel = h.rel;
        found = ground (
          arith,
          find_rel-merge_rel set_dynamic set_dynamic_keeps c d a b g.calls,
          other,
          h.found,
        );
        marked = h.marked;
      }
    ]

    upsert-IsConflict :
        (edges : List Edge) (g : Graph F)
        → IsConflict a b g
        → IsConflict a b (upsert_dynamic_edges edges g)
    unfolding upsert_dynamic_edges
    upsert-IsConflict [] g h = h
    upsert-IsConflict (e ∷ edges) g h =
        elim (Bool-cases (is_node e.source g && is_node e.target g)) [
          | inl known ↦
              rw known (upsert-IsConflict edges _ (merge-IsConflict e.source e.target g h))
          | inr unknown ↦ rw unknown (upsert-IsConflict edges g h)
        ]

    props-IsConflict :
        (now : ℕ) (records : List (TraceRecord F)) (g : Graph F)
        → IsConflict a b g
        → IsConflict a b (update_node_props_batch now records g)
    unfolding update_node_props_batch
    props-IsConflict now records g h = record { rel = h.rel; found = h.found; marked = h.marked }

    confirm-IsConflict :
        (now : ℕ) (ids : List String) (g : Graph F)
        → IsConflict a b g
        → IsConflict a b (confirm_static_edges now ids g)
    unfolding confirm_static_edges
    confirm-IsConflict now ids g h =
        update-IsConflict (confirm now ids) g (confirm_keeps now ids)
          (λ r m. unfold confirm in ground (arith, m)) h

    detect-IsConflict : (g : Graph F) → IsConflict a b g → IsConflict a b (run_conflict_detector g)
    unfolding run_conflict_detector
    detect-IsConflict g h =
        update-IsConflict (detect_conflict g.nodes) g (detect_keeps g.nodes)
          (λ r m. unfold detect_conflict in ground (arith, m)) h

    stale-IsConflict : (g : Graph F) → IsConflict a b g → IsConflict a b (run_staleness_downgrade g)
    unfolding run_staleness_downgrade
    stale-IsConflict g h =
        update-IsConflict (downgrade g.nodes) g (downgrade_keeps g.nodes)
          (λ r m. unfold downgrade in ground (arith, m)) h

    statement-IsConflict :
        (is_up : ℕ → Bool) (statement : ℕ → Graph F → Graph F)
        → ((now : ℕ) (g : Graph F) → IsConflict a b g → IsConflict a b (statement now g))
        → (s : Enricher F) → IsConflict a b s.graph
        → IsConflict a b (run_statement is_up statement s).1.graph
    unfolding run_statement
    statement-IsConflict is_up statement keeps s h = elim (Bool-cases (is_up s.statements)) [
      | inl up ↦ rw up (keeps s.statements s.graph h)
      | inr down ↦ rw down h
    ]

    abbrev Marked : Enricher F → Type 0
    Marked s = IsConflict a b s.graph

    unless_empty-Marked :
        {A : Type 0} (xs : List A) (m : Action (Enricher F) (Unit {0}))
        → ((s : Enricher F) → Marked s → Marked (m s).1)
        → (s : Enricher F) → Marked s
        → Marked (unless_empty xs m s).1
    unless_empty-Marked [] m km s h = h
    unless_empty-Marked (x ∷ xs) m km s h = km s h

    write_batch-Marked :
        (is_up : ℕ → Bool) (records : List (TraceRecord F)) (edges : List Edge) (ids : List String)
        (s : Enricher F)
        → Marked s
        → Marked (write_batch is_up records edges ids s).1
    unfolding write_batch
    write_batch-Marked is_up records edges ids =
        then_keeps Marked
          (unless_empty records
            (run_statement is_up (λ now g. update_node_props_batch now records g)))
          _
          (unless_empty-Marked records _
            (statement-IsConflict is_up _ (λ now. props-IsConflict now records)))
          (then_keeps Marked
            (unless_empty edges (run_statement is_up (λ now g. upsert_dynamic_edges edges g))) _
            (unless_empty-Marked edges _
              (statement-IsConflict is_up _ (λ now. upsert-IsConflict edges)))
            (then_keeps Marked
              (unless_empty ids (run_statement is_up (λ now g. confirm_static_edges now ids g))) _
              (unless_empty-Marked ids _
                (statement-IsConflict is_up _ (λ now. confirm-IsConflict now ids)))
              (then_keeps Marked (run_statement is_up (λ now g. run_conflict_detector g)) _
                (statement-IsConflict is_up _ (λ now. detect-IsConflict))
                (statement-IsConflict is_up _ (λ now. stale-IsConflict)))))

    post_batch-Marked :
        (is_up : ℕ → Bool) (s : Enricher F) → Marked s → Marked (post_batch is_up s).1
    unfolding post_batch
    post_batch-Marked is_up s h =
        unless_empty-Marked s.batch_observed_ids _
          (λ s'.
            try_keeps Marked
              (write_batch is_up s.batch_node_records s.batch_dynamic_edges s.batch_observed_ids) _
              (write_batch-Marked is_up s.batch_node_records s.batch_dynamic_edges
                s.batch_observed_ids)
              (λ e t k. ground (arith, k)) s')
          s h

module _ {F : Type 0} ⦃float : Float F⦄ (parse : String → Option (ExecutionPath F)) where
  graph-handle : (event : Option String) (s : Enricher F) → (handle parse event s).1.graph ≡ s.graph
  unfolding handle
  graph-handle none s = refl
  graph-handle (some raw) s = ground arith

  -- A conflict is final for the enricher: whatever execution paths arrive, also ones in which both ends of
  -- the edge are observed, whatever statements fail and whatever Redis answers, an edge that is marked as
  -- a conflict is still marked after any number of rounds.
  pub IsConflict-is_final :
      {R : Type 0} (is_up : ℕ → Bool) (redis : Redis R (Option String)) (n : ℕ)
      (p : Process R (Enricher F)) (a b : String)
      → IsConflict a b p.self.graph
      → IsConflict a b (run redis (enricher parse is_up) n p).1.self.graph
  IsConflict-is_final is_up redis n p a b h =
      run-Keeps redis (enricher parse is_up) {P = λ s. IsConflict a b s.graph}
        (λ event s k. rw (graph-handle event s) k) (post_batch-Marked a b is_up) n p h
