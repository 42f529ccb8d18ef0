-- ===== src/Resolver/Queues.antt =====
-- What becomes of the pending references of a repository while Neo4j and Redis are up: one pass of
-- `retry_pending`, with the graph as it is.
pub mod Events
use tersecontext.Prelude.{
  ℕ, suc, String, Bool, true, false, ◌&&◌, not, ◌≡◌, refl, sym, ◌∙◌, ap, Option, none, some, List,
  [], ◌∷◌, ◌++◌, ◌==◌, keep, All, All-append, append-nil, append_assoc, arith, eq_iff, eq_refl,
  Bool-cases, inl, inr, if◌then◌else◌,
}
use tersecontext.Prelude.Dict
use tersecontext.Prelude.Dict.{Dict}
use tersecontext.Prelude.Effects.{Result, ok, raise, Action, pure, continue, for_each, ◌>>=◌, ◌>>◌}
use tersecontext.Graph.Store.{NodeProps, Node, node, Graph}
use tersecontext.Graph.Write.{is_node}
use tersecontext.Pending.{
  PendingRef, Entry, malformed, ref, Answer, resolved, unresolved, raised, push_pending, is_expired,
  tried_again, retry_entries, retry_pending,
}
use tersecontext.Resolver.{
  ParsedNode, ParsedFileEvent, ImportInfo, from_module, plain, parse_import_body, compute_path_hint,
  State, queue, World, matching,
}
use tersecontext.Resolver.Process.{
  is_exact, is_hinted, picked, new_ref, command, looked_up, run_lookup, lookup_again, linked,
  write_edge, resolve_import, packaged, write_package_edge, pushed_ref, push, drained, drain,
  after_retry, retry_each, retry_list, unless, import_symbol, import_package, import_all,
  import_node, process_event,
}

abbrev pub answer_of : Bool → Answer
answer_of true = resolved
answer_of false = unresolved

-- Every reference of the list is one of the repository.
abbrev pub OfRepo : String → Entry → Type 0
OfRepo repo (malformed t) = Unit
OfRepo repo (ref r) = r.repo ≡ repo

pub queue-put :
    (j repo : String) (change : List Entry → List Entry) (pending : Dict (List Entry))
    → j ≡ repo
    → queue repo (Dict.put j (change (queue j pending)) pending) ≡ change (queue repo pending)
queue-put j repo change pending e =
    rw e
      (rw (Dict.get-put repo repo (change (queue repo pending)) pending) (rw (eq_refl repo) refl))

queue-remove :
    (repo : String) (pending : Dict (List Entry)) → queue repo (Dict.remove repo pending) ≡ []
queue-remove repo pending = rw (Dict.get-remove repo repo pending) (rw (eq_refl repo) refl)

module _ {F : Type 0} (world : World) (nodes : Dict (Node F)) where
  abbrev pub hinted_target : String → String → String → Option String → Option String
  hinted_target repo name path_hint (some id) = some id
  hinted_target repo name path_hint none =
      if not (path_hint == "")
      then picked world (matching (is_hinted repo name path_hint) nodes)
      else none

  -- The node that an import means: one with the name as its qualified name, or else one of that name in a
  -- file of that path.
  abbrev pub target_of : String → String → String → Option String
  target_of repo name path_hint =
      hinted_target repo name path_hint (picked world (matching (is_exact repo name) nodes))

  abbrev pub both_exist : String → Option String → Bool
  both_exist importer none = false
  both_exist importer (some imported) = Dict.has importer nodes && Dict.has imported nodes

  abbrev pub is_resolvable : PendingRef → Bool
  is_resolvable r = both_exist r.source_stable_id (target_of r.repo r.target_name r.path_hint)

  -- What an action leaves alone while it gives an answer.
  abbrev pub Gives : {A : Type 0} → A → Dict (List Entry) → Result A × State F → Type 0
  Gives a pending (r, s) = (r ≡ ok a) × (s.graph.nodes ≡ nodes) × (s.pending ≡ pending)

  pub continue-Gives :
      {A B : Type 0} (a : A) (b : B) (pending : Dict (List Entry)) (r : Result A)
      (f : A → Action (State F) B) (s : State F)
      → Gives a pending (r, s)
      → ((t : State F) → t.graph.nodes ≡ nodes → t.pending ≡ pending → Gives b pending (f a t))
      → Gives b pending (continue r f s)
  continue-Gives a b pending r f s g k = rw g.0 (k s g.1 g.2)

  module _ (now : ℕ) (is_up : ℕ → Bool) (up : (n : ℕ) → is_up n ≡ true) where
    pub command_up :
        {A : Type 0} (change : State F → A × State F) (s : State F)
        → command world now is_up change s
          ≡ (let (a, s') = change (record s { commands = suc s.commands }) in (ok a, s'))
    unfolding command
    command_up change s = rw (up s.commands) refl

    module _ (pending : Dict (List Entry)) where
      run_lookup-Gives :
          (test : NodeProps → Bool) (s : State F)
          → s.graph.nodes ≡ nodes
          → s.pending ≡ pending
          → Gives (picked world (matching test nodes)) pending (run_lookup world now is_up test s)
      unfolding run_lookup
      run_lookup-Gives test s e p =
          rw (command_up (looked_up world now is_up test) s) (rw e refl, e, p)

      lookup_again-Gives :
          (repo name hint : String) (o : Option String) (s : State F)
          → s.graph.nodes ≡ nodes
          → s.pending ≡ pending
          → Gives
              (hinted_target repo name hint o)
              pending
              (lookup_again world now is_up repo name hint o s)
      lookup_again-Gives repo name hint (some id) s e p = (refl, e, p)
      lookup_again-Gives repo name hint none s e p = elim (Bool-cases (hint == "")) [
        | inl h ↦ rw h (refl, e, p)
        | inr h ↦ rw h (run_lookup-Gives (is_hinted repo name hint) s e p)
      ]

      write_edge-Gives :
          (a : String) (o : Option String) (s : State F)
          → s.graph.nodes ≡ nodes
          → s.pending ≡ pending
          → Gives (both_exist a o) pending (write_edge world now is_up a o s)
      unfolding write_edge
      write_edge-Gives a none s e p = (refl, e, p)
      write_edge-Gives a (some b) s e p =
          rw (command_up (linked world now is_up a b) s)
            (elim (Bool-cases (is_node a s.graph && is_node b s.graph)) [
              | inl h ↦ rw h (ap ok (sym (rw e at h)), e, p)
              | inr h ↦ rw h (ap ok (sym (rw e at h)), e, p)
            ])

      pub resolve_import-Gives :
          (a name hint repo : String) (s : State F)
          → s.graph.nodes ≡ nodes
          → s.pending ≡ pending
          → Gives
              (both_exist a (target_of repo name hint))
              pending
              (resolve_import world now is_up a name hint repo s)
      unfolding resolve_import
      resolve_import-Gives a name hint repo s e p =
          let run = run_lookup world now is_up (is_exact repo name) s in
          let first = picked world (matching (is_exact repo name) nodes) in
          let again = lookup_again world now is_up repo name hint in
          continue-Gives first (both_exist a (target_of repo name hint)) pending run.0
            (λ o. again o >>= write_edge world now is_up a) run.1
            (run_lookup-Gives (is_exact repo name) s e p)
            (λ t et pt.
              continue-Gives (target_of repo name hint) (both_exist a (target_of repo name hint))
                pending (again first t).0 (write_edge world now is_up a) (again first t).1
                (lookup_again-Gives repo name hint first t et pt)
                (write_edge-Gives a (target_of repo name hint)))

    pub push_then-queue :
        (repo : String) (r : PendingRef) (s : State F) (rest : Action (State F) (Unit {0}))
        (then_ : List Entry → List Entry)
        → s.graph.nodes ≡ nodes
        → r.repo ≡ repo
        → ((t : State F)
            → t.graph.nodes ≡ nodes
            → queue repo (rest t).1.pending ≡ then_ (queue repo t.pending))
        → queue repo ((push world now is_up r >> rest) s).1.pending
          ≡ then_ (push_pending r (queue repo s.pending))
    unfolding push
    push_then-queue repo r s rest then_ n f k =
        let sent : State F = record s { commands = suc s.commands } in
        let s' = (pushed_ref world now is_up r sent).1 in
        rw (command_up (pushed_ref world now is_up r) s)
          (k s' n ∙ ap then_ (queue-put r.repo repo (push_pending r) s.pending f))

    -- The queue of the repository after the reference, whose resolution gave an answer.
    after_retry-queue :
        (repo : String) (r : PendingRef) (entries : List Entry) (b : Bool) (answer : Result Bool)
        (s : State F) (rest : Action (State F) (Unit {0})) (then_ : List Entry → List Entry)
        → answer ≡ ok b
        → s.graph.nodes ≡ nodes
        → r.repo ≡ repo
        → ((t : State F)
            → t.graph.nodes ≡ nodes
            → queue repo (rest t).1.pending ≡ then_ (queue repo t.pending))
        → queue repo (after_retry world now is_up repo r entries rest answer s).1.pending
          ≡ then_ (
              if b
              then queue repo s.pending
              else push_pending (tried_again now r) (queue repo s.pending))
    after_retry-queue repo r entries b (raise x) s rest then_ e n f k = ground arith
    after_retry-queue repo r entries true (ok true) s rest then_ e n f k = k s n
    after_retry-queue repo r entries false (ok false) s rest then_ e n f k =
        push_then-queue repo (tried_again now r) s rest then_ n f k
    after_retry-queue repo r entries true (ok false) s rest then_ e n f k = ground arith
    after_retry-queue repo r entries false (ok true) s rest then_ e n f k = ground arith

    retry_split :
        (r : PendingRef) (entries : List Entry) (b : Bool) (q : List Entry)
        → retry_entries now
            (λ q. answer_of (is_resolvable q))
            entries
            (if b then q else push_pending (tried_again now r) q)
          ≡ elim (answer_of b) [
            | resolved ↦ retry_entries now (λ q. answer_of (is_resolvable q)) entries q
            | unresolved ↦
                retry_entries now
                  (λ q. answer_of (is_resolvable q))
                  entries
                  (push_pending (tried_again now r) q)
            | raised ↦ q ++ ref r ∷ entries
          ]
    retry_split r entries true q = refl
    retry_split r entries false q = refl

    retry_each-queue :
        (repo : String) (entries : List Entry) (s : State F)
        → All (OfRepo repo) entries
        → s.graph.nodes ≡ nodes
        → queue repo (retry_each world now is_up repo entries s).1.pending
          ≡ retry_entries now (λ r. answer_of (is_resolvable r)) entries (queue repo s.pending)
    unfolding retry_each retry_entries
    retry_each-queue repo [] s h n = refl
    retry_each-queue repo (malformed t ∷ entries) s h n = retry_each-queue repo entries s h.1 n
    retry_each-queue repo (ref r ∷ entries) s h n = elim (Bool-cases (is_expired now r)) [
      | inl e ↦ rw e (retry_each-queue repo entries s h.1 n)
      | inr e ↦
          let run =
            resolve_import world now is_up r.source_stable_id r.target_name r.path_hint r.repo s in
          let g =
            resolve_import-Gives s.pending r.source_stable_id r.target_name r.path_hint r.repo s n
              refl in
          let after =
            after_retry-queue repo r entries (is_resolvable r) run.0 run.1
              (retry_each world now is_up repo entries)
              (retry_entries now (λ q. answer_of (is_resolvable q)) entries) g.0 g.1 h.0
              (λ t nt. retry_each-queue repo entries t h.1 nt) in
          rw e (rw g.2 at after ∙ retry_split r entries (is_resolvable r) (queue repo s.pending))
    ]

    pub retry_list-queue :
        (repo : String) (s : State F)
        → All (OfRepo repo) (queue repo s.pending)
        → s.graph.nodes ≡ nodes
        → queue repo (retry_list world now is_up repo s).1.pending
          ≡ retry_pending now (λ r. answer_of (is_resolvable r)) (queue repo s.pending)
    unfolding retry_list drain retry_pending
    retry_list-queue repo s h n =
        let sent : State F = record s { commands = suc s.commands } in
        rw (command_up (drained world now is_up repo) s) (
          rw (queue-remove repo s.pending) at (
            retry_each-queue repo (queue repo s.pending) (drained world now is_up repo sent).1 h n))
