-- ===== src/Graph/Ingest/Edgeless.antt =====
-- What happens to the edges of a file whose nodes are not in the graph yet.
use tersecontext.Prelude.{
  ℕ, String, Bool, true, false, ◌&&◌, Option, none, some, List, [], ◌∷◌, ◌≡◌, refl, sym, subst, map,
  ap, ◌∙◌, All, Bool-cases, inl, inr, arith,
}
use tersecontext.Prelude.Dict
use tersecontext.Prelude.Effects.{Result, ok, raise, Action, handled, continue}
use tersecontext.Graph.Store.{Graph}
use tersecontext.Graph.Write.{
  NodeRecord, is_node, or_blank, by_id, build_node_records, upsert_nodes, upsert_edges, tombstone,
}
use tersecontext.Graph.Enrich.{unless_empty}
use tersecontext.Graph.Ingest.{
  ParsedFileEvent, EmbeddedNodesEvent, cached, to_cache, Writer, command, on_graph, xack,
  write_edges, write_nodes, on_error, parsed_or_raise, with_event, edge_message, write_cached,
  node_message, Delivery, parsed_file, embedded_nodes, deliver, deliver_all,
}

-- Some end of each edge is not a node of the graph.
abbrev pub AllOpen : {F : Type 0} → Graph F → List (String × String) → Type 0
AllOpen g = All (λ e. (is_node e.0 g && is_node e.1 g) ≡ false)

module _ {F : Type 0} where
  upsert_edges-open :
      (now : ℕ) (edges : List (String × String)) (g : Graph F)
      → AllOpen g edges
      → upsert_edges now edges g ≡ g
  unfolding upsert_edges
  upsert_edges-open now [] g h = refl
  upsert_edges-open now ((a, b) ∷ edges) g h = rw (h.0) (upsert_edges-open now edges g h.1)

  calls-upsert_nodes :
      (now : ℕ) (records : List NodeRecord) (g : Graph F)
      → (upsert_nodes now records g).calls ≡ g.calls
  unfolding upsert_nodes
  calls-upsert_nodes now [] g = refl
  calls-upsert_nodes now ((id, props) ∷ records) g =
      let old = or_blank (Dict.get id g.nodes) in
      let new = record old { props = some props; active = some true; updated_at = some now } in
      calls-upsert_nodes now records (record g { nodes = Dict.put id new g.nodes })

abbrev pub embedded : String × Option String → Delivery
embedded (msg_id, raw) = embedded_nodes msg_id raw

module _ {F : Type 0} (is_up : ℕ → Bool) where
  link-open :
      (edges : List (String × String)) (s : Writer F)
      → AllOpen s.graph edges
      → (unless_empty edges (on_graph is_up (λ now g. upsert_edges now edges g)) s).1.graph
        ≡ s.graph
  unfolding on_graph command
  link-open [] s h = refl
  link-open (e ∷ edges) s h = elim (Bool-cases (is_up s.commands)) [
    | inl up ↦ rw up (upsert_edges-open s.commands (e ∷ edges) s.graph h)
    | inr down ↦ rw down refl
  ]

  calls-write_nodes :
      {A : Type 0} (xs : List A) (records : List NodeRecord) (s : Writer F)
      → (unless_empty xs (on_graph is_up (λ now g. upsert_nodes now records g)) s).1.graph.calls
        ≡ s.graph.calls
  unfolding on_graph command
  calls-write_nodes [] records s = refl
  calls-write_nodes (x ∷ xs) records s = elim (Bool-cases (is_up s.commands)) [
    | inl up ↦ rw up (calls-upsert_nodes s.commands records s.graph)
    | inr down ↦ rw down refl
  ]

  -- An acknowledgement, after whatever result, leaves the graph alone.
  graph-handled :
      (msg_id : String) (r : Result (Unit {0})) (s : Writer F)
      → (handled
          (continue r (λ _. xack is_up msg_id) s).0
          (on_error is_up msg_id)
          (continue r (λ _. xack is_up msg_id) s).1).1.graph
        ≡ s.graph
  unfolding on_error xack command
  graph-handled msg_id (ok a) s = ground arith
  graph-handled msg_id (raise e) s = ground arith

  then_nothing :
      (gone : List String) (m : Action (Writer F) (Unit {0})) (r : Result (Unit {0})) (q : Writer F)
      → gone ≡ []
      → (continue r (λ _. unless_empty gone m) q).1 ≡ q
  then_nothing [] m (ok a) q h = refl
  then_nothing [] m (raise e) q h = refl
  then_nothing (x ∷ gone) m r q h = ground (arith, h)

  graph-write_edges :
      (event : ParsedFileEvent) (s : Writer F)
      → event.deleted_nodes ≡ []
      → AllOpen s.graph event.intra_file_edges
      → (write_edges is_up event s).1.graph ≡ s.graph
  unfolding write_edges
  graph-write_edges event s none_gone h =
      let cache = to_cache (event.commit_sha, event.file_path) event s.cache in
      let edges = event.intra_file_edges in
      let r =
        unless_empty edges (on_graph is_up (λ now g. upsert_edges now edges g))
          (record s { cache = cache }) in
      let same = link-open edges (record s { cache = cache }) h in
      let gone = event.deleted_nodes in
      ap (λ (q : Writer F). q.graph)
        (then_nothing gone (on_graph is_up (λ now g. tombstone now gone g)) r.0 r.1 none_gone)
      ∙ same

  calls-write_cached :
      (event : EmbeddedNodesEvent) (parsed : Option ParsedFileEvent) (s : Writer F)
      → (write_nodes is_up event parsed s).1.graph.calls ≡ s.graph.calls
  unfolding write_nodes
  calls-write_cached event none s = refl
  calls-write_cached event (some parsed) s =
      let records =
        build_node_records event.nodes (by_id parsed.nodes []) parsed.file_path parsed.language
          parsed.repo in
      calls-write_nodes records records s

  calls-with_event :
      (r : Result EmbeddedNodesEvent) (s : Writer F)
      → (with_event r (write_cached is_up) s).1.graph.calls ≡ s.graph.calls
  calls-with_event (ok event) s =
      calls-write_cached event (cached (event.commit_sha, event.file_path) s.cache) s
  calls-with_event (raise e) s = refl

  module _ (parse_file : String → Option ParsedFileEvent)
      (parse_nodes : String → Option EmbeddedNodesEvent) where
    graph-edge_message :
        (msg_id raw : String) (event : ParsedFileEvent) (s : Writer F)
        → parse_file raw ≡ some event
        → event.deleted_nodes ≡ []
        → AllOpen s.graph event.intra_file_edges
        → (edge_message is_up parse_file parse_nodes msg_id (some raw) s).1.graph ≡ s.graph
    unfolding edge_message write_edges
    graph-edge_message msg_id raw event s parsed none_gone h =
        let r = parsed_or_raise parse_file (some raw) in
        let w = with_event r (write_edges is_up) s in
        let made : r ≡ ok event = ground (arith, parsed) in
        graph-handled msg_id w.0 w.1
        ∙ subst
            (λ (q : Result ParsedFileEvent). (with_event q (write_edges is_up) s).1.graph ≡ s.graph)
            (sym made) (graph-write_edges event s none_gone h)

    calls-node_message :
        (msg_id : String) (raw : Option String) (s : Writer F)
        → (node_message is_up parse_file parse_nodes msg_id raw s).1.graph.calls ≡ s.graph.calls
    unfolding node_message write_nodes
    calls-node_message msg_id raw s =
        let w = with_event (parsed_or_raise parse_nodes raw) (write_cached is_up) s in
        ap (λ (g : Graph F). g.calls) (graph-handled msg_id w.0 w.1)
        ∙ calls-with_event (parsed_or_raise parse_nodes raw) s

    calls-embedded :
        (ms : List (String × Option String)) (s : Writer F)
        → (deliver_all is_up parse_file parse_nodes (map embedded ms) s).graph.calls ≡ s.graph.calls
    unfolding deliver_all deliver
    calls-embedded [] s = refl
    calls-embedded ((msg_id, raw) ∷ ms) s =
        calls-embedded ms (node_message is_up parse_file parse_nodes msg_id raw s).1
        ∙ calls-node_message msg_id raw s

    -- If every edge of a file with no deleted nodes has an end that is not in the graph yet, as when the file is
    -- indexed for the first time, its message writes no edge, and the messages of embedded nodes that come
    -- later, which bring the nodes, add none: the edges of the file stay out of the graph.
    pub calls-first_index :
        (msg_id raw : String) (event : ParsedFileEvent) (ms : List (String × Option String))
        (s : Writer F)
        → parse_file raw ≡ some event
        → event.deleted_nodes ≡ []
        → AllOpen s.graph event.intra_file_edges
        → (deliver_all is_up parse_file parse_nodes
            (parsed_file msg_id (some raw) ∷ map embedded ms)
            s).graph.calls
          ≡ s.graph.calls
    unfolding deliver_all deliver
    calls-first_index msg_id raw event ms s parsed none_gone h =
        calls-embedded ms (edge_message is_up parse_file parse_nodes msg_id (some raw) s).1
        ∙ ap (λ (g : Graph F). g.calls) (graph-edge_message msg_id raw event s parsed none_gone h)
