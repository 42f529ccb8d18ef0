-- ===== src/Resolver/Queues/Events.antt =====
-- The references that a parsed file leaves unresolved, and the pass that follows.
use tersecontext.Prelude.{
  ℕ, String, Bool, true, false, ◌≡◌, refl, sym, ◌∙◌, ap, List, [], ◌∷◌, ◌++◌, ◌==◌, keep, All,
  All-append, append-nil, append_assoc, Bool-cases, inl, inr, if◌then◌else◌,
}
use tersecontext.Prelude.Dict.{Dict}
use tersecontext.Prelude.Effects.{Result, ok, Action, continue, for_each, ◌>>◌}
use tersecontext.Graph.Store.{Node}
use tersecontext.Graph.Write.{is_node}
use tersecontext.Pending.{PendingRef, Entry, ref, push_pending, retry_pending}
use tersecontext.Resolver.{
  ParsedNode, ParsedFileEvent, ImportInfo, from_module, plain, parse_import_body, compute_path_hint,
  State, queue, World,
}
use tersecontext.Resolver.Process.{
  new_ref, resolve_import, packaged, write_package_edge, pushed_ref, push, retry_list, unless,
  import_symbol, import_package, import_all, import_node, process_event,
}
use tersecontext.Resolver.Queues.{
  answer_of, OfRepo, is_resolvable, command_up, queue-put, resolve_import-Gives, retry_list-queue,
}

abbrev pub flat : {A : Type 0} → (A → List Entry) → List A → List Entry
flat add [] = []
flat add (x ∷ xs) = add x ++ flat add xs

flat-nil : {A : Type 0} (xs : List A) → flat (λ (x : A). []) xs ≡ []
flat-nil [] = refl
flat-nil (x ∷ xs) = flat-nil xs

-- The import statements of a file.
abbrev pub imports_of : ParsedFileEvent → List ParsedNode
imports_of event = keep (λ (n : ParsedNode). n.type == "import") event.nodes

module _ {F : Type 0} (world : World) (now : ℕ) (nodes : Dict (Node F)) where
  -- A symbol that does not resolve becomes a new reference.
  abbrev pub unresolved_symbol : String → String → String → String → List Entry
  unresolved_symbol a hint repo symbol =
      let r = new_ref now a symbol hint repo in
      if is_resolvable world nodes r then [] else ref r ∷ []

  abbrev pub unresolved_info : ParsedFileEvent → ParsedNode → ImportInfo → List Entry
  unresolved_info event n (plain names) = []
  unresolved_info event n (from_module m dots names) =
      flat
        (unresolved_symbol n.stable_id (compute_path_hint m (world.parts event.file_path) dots)
          event.repo)
        names

  abbrev pub unresolved_refs : ParsedFileEvent → List Entry
  unresolved_refs event =
      flat (λ (n : ParsedNode). unresolved_info event n (parse_import_body (world.ast n.body)))
        (imports_of event)

  flat-OfRepo :
      {A : Type 0} (repo : String) (add : A → List Entry)
      → ((a : A) → All (OfRepo repo) (add a))
      → (xs : List A) → All (OfRepo repo) (flat add xs)
  flat-OfRepo repo add h [] = tt
  flat-OfRepo repo add h (x ∷ xs) =
      All-append (OfRepo repo) (add x) (flat add xs) (h x) (flat-OfRepo repo add h xs)

  unresolved_symbol-OfRepo :
      (a hint repo symbol : String) → All (OfRepo repo) (unresolved_symbol a hint repo symbol)
  unresolved_symbol-OfRepo a hint repo symbol =
      elim (Bool-cases (is_resolvable world nodes (new_ref now a symbol hint repo))) [
        | inl e ↦ rw e tt
        | inr e ↦ rw e (refl, tt)
      ]

  unresolved_info-OfRepo :
      (event : ParsedFileEvent) (n : ParsedNode) (info : ImportInfo)
      → All (OfRepo event.repo) (unresolved_info event n info)
  unresolved_info-OfRepo event n (plain names) = tt
  unresolved_info-OfRepo event n (from_module m dots names) =
      let hint = compute_path_hint m (world.parts event.file_path) dots in
      flat-OfRepo event.repo (unresolved_symbol n.stable_id hint event.repo)
        (unresolved_symbol-OfRepo n.stable_id hint event.repo) names

  module _ (is_up : ℕ → Bool) (up : (n : ℕ) → is_up n ≡ true) (repo : String) where
    -- An action that ends, leaves the nodes alone and appends to the list of the repository.
    abbrev Grows : Action (State F) (Unit {0}) → List Entry → Type 0
    Grows m added =
        (s : State F)
        → s.graph.nodes ≡ nodes
        → ((m s).0 ≡ ok tt)
          × ((m s).1.graph.nodes ≡ nodes)
          × (queue repo (m s).1.pending ≡ queue repo s.pending ++ added)

    continue-Grows :
        (n : Action (State F) (Unit {0})) (xs ys q : List Entry) (r : Result (Unit {0}))
        (t : State F)
        → r ≡ ok tt
        → t.graph.nodes ≡ nodes
        → queue repo t.pending ≡ q ++ xs
        → Grows n ys
        → ((continue r (λ _. n) t).0 ≡ ok tt)
          × ((continue r (λ _. n) t).1.graph.nodes ≡ nodes)
          × (queue repo (continue r (λ _. n) t).1.pending ≡ q ++ (xs ++ ys))
    continue-Grows n xs ys q r t e et eq g =
        rw e (let (e1, e2, e3) = g t et in (e1, e2, e3 ∙ rw eq (append_assoc q xs ys)))

    then-Grows :
        (m n : Action (State F) (Unit {0})) (xs ys : List Entry)
        → Grows m xs
        → Grows n ys
        → Grows (m >> n) (xs ++ ys)
    then-Grows m n xs ys gm gn s e =
        let (e1, e2, e3) = gm s e in
        continue-Grows n xs ys (queue repo s.pending) (m s).0 (m s).1 e1 e2 e3 gn

    for_each-Grows :
        {A : Type 0} (body : A → Action (State F) (Unit {0})) (add : A → List Entry)
        → ((a : A) → Grows (body a) (add a))
        → (xs : List A) → Grows (for_each body xs) (flat add xs)
    for_each-Grows body add g [] s e = (refl, e, sym (append-nil (queue repo s.pending)))
    for_each-Grows body add g (x ∷ xs) s e =
        then-Grows (body x) (for_each body xs) (add x) (flat add xs) (g x)
          (for_each-Grows body add g xs) s e

    -- What follows the resolution of a symbol.
    unless-Grows :
        (r : PendingRef) (b : Bool) (answer : Result Bool) (t : State F) (q : List Entry)
        → r.repo ≡ repo
        → answer ≡ ok b
        → t.graph.nodes ≡ nodes
        → queue repo t.pending ≡ q
        → let next = continue answer (λ b. unless world now is_up b (push world now is_up r)) t in
          (next.0 ≡ ok tt)
          × (next.1.graph.nodes ≡ nodes)
          × (queue repo next.1.pending ≡ q ++ (if b then [] else ref r ∷ []))
    unfolding push
    unless-Grows r true answer t q f e n p = rw e (refl, n, p ∙ sym (append-nil q))
    unless-Grows r false answer t q f e n p = rw e (
        rw (command_up world nodes now is_up up (pushed_ref world now is_up r) t)
          (refl, n, queue-put r.repo repo (push_pending r) t.pending f ∙ ap (push_pending r) p))

    import_symbol-Grows :
        (a hint symbol : String)
        → Grows
            (import_symbol world now is_up a hint repo symbol)
            (unresolved_symbol a hint repo symbol)
    unfolding import_symbol
    import_symbol-Grows a hint symbol s e =
        let run = resolve_import world now is_up a symbol hint repo s in
        let (g0, g1, g2) =
          resolve_import-Gives world nodes now is_up up s.pending a symbol hint repo s e refl in
        let r = new_ref now a symbol hint repo in
        unless-Grows r (is_resolvable world nodes r) run.0 run.1 (queue repo s.pending) refl g0 g1
          (ap (queue repo) g2)

    import_package-Grows : (a name : String) → Grows (import_package world now is_up a repo name) []
    unfolding import_package write_package_edge
    import_package-Grows a name s e =
        rw (command_up world nodes now is_up up (packaged world now is_up a name repo) s)
          (elim (Bool-cases (is_node a s.graph)) [
            | inl h ↦ rw h (refl, e, sym (append-nil (queue repo s.pending)))
            | inr h ↦ rw h (refl, e, sym (append-nil (queue repo s.pending)))
          ])

  module _ (is_up : ℕ → Bool) (up : (n : ℕ) → is_up n ≡ true) where
    import_all-Grows :
        (event : ParsedFileEvent) (n : ParsedNode) (info : ImportInfo)
        → Grows is_up up event.repo
            (import_all world now is_up event n info)
            (unresolved_info event n info)
    import_all-Grows event n (plain names) = rw (sym (flat-nil names)) (
        for_each-Grows is_up up event.repo (import_package world now is_up n.stable_id event.repo)
          (λ name. []) (import_package-Grows is_up up event.repo n.stable_id) names)
    import_all-Grows event n (from_module m dots names) =
        let hint = compute_path_hint m (world.parts event.file_path) dots in
        for_each-Grows is_up up event.repo
          (import_symbol world now is_up n.stable_id hint event.repo)
          (unresolved_symbol n.stable_id hint event.repo)
          (import_symbol-Grows is_up up event.repo n.stable_id hint) names

    import_node-Grows :
        (event : ParsedFileEvent) (n : ParsedNode)
        → Grows is_up up event.repo
            (import_node world now is_up event n)
            (unresolved_info event n (parse_import_body (world.ast n.body)))
    unfolding import_node
    import_node-Grows event n = import_all-Grows event n (parse_import_body (world.ast n.body))

    continue-queue :
        (repo : String) (r : Result (Unit {0})) (t : State F) (q : List Entry)
        → r ≡ ok tt
        → t.graph.nodes ≡ nodes
        → queue repo t.pending ≡ q
        → All (OfRepo repo) q
        → queue repo (continue r (λ _. retry_list world now is_up repo) t).1.pending
          ≡ retry_pending now (λ r. answer_of (is_resolvable world nodes r)) q
    continue-queue repo r t q e n p h =
        rw e (rw p at (retry_list-queue world nodes now is_up up repo t (rw (sym p) at h) n))

    -- While Neo4j and Redis are up, a parsed file leaves in the list of its repository what one pass of
    -- `retry_pending` makes of the list with, behind it, a new reference for each imported symbol that
    -- the graph does not resolve, where a reference counts as resolved exactly if the graph has its
    -- importer and its target. The list must hold references of its own repository only.
    pub process_event-queue :
        (event : ParsedFileEvent) (s : State F)
        → s.graph.nodes ≡ nodes
        → All (OfRepo event.repo) (queue event.repo s.pending)
        → queue event.repo (process_event world now is_up event s).1.pending
          ≡ retry_pending now
              (λ r. answer_of (is_resolvable world nodes r))
              (queue event.repo s.pending ++ unresolved_refs event)
    unfolding process_event
    process_event-queue event s n h =
        let run = for_each (import_node world now is_up event) (imports_of event) s in
        let (g0, g1, g2) =
          for_each-Grows is_up up event.repo (import_node world now is_up event)
            (λ (n : ParsedNode). unresolved_info event n (parse_import_body (world.ast n.body)))
            (import_node-Grows event) (imports_of event) s n in
        continue-queue event.repo run.0 run.1 (queue event.repo s.pending ++ unresolved_refs event)
          g0 g1 g2
          (All-append (OfRepo event.repo) (queue event.repo s.pending) (unresolved_refs event) h (
            flat-OfRepo event.repo _
              (λ (n : ParsedNode).
                unresolved_info-OfRepo event n (parse_import_body (world.ast n.body)))
              (imports_of event)))
