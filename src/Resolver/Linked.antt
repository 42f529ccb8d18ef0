-- ===== src/Resolver/Linked.antt =====
-- What the resolver keeps of the graph, whatever messages come and whatever fails.
pub mod Kept
use tersecontext.Prelude.{
  ℕ, suc, String, Bool, true, false, ◌&&◌, ◌≡◌, refl, sym, Option, none, some, List, [], ◌∷◌, ◌++◌,
  ◌==◌, keep, All, arith, eq_iff, Bool-cases, inl, inr, if◌then◌else◌,
}
use tersecontext.Prelude.Dict
use tersecontext.Prelude.Dict.{Dict}
use tersecontext.Prelude.Effects.{
  Exception, Result, ok, raise, Action, pure, try_except, for_each, ◌>>=◌, ◌>>◌, then_keeps,
  bind_keeps, for_each_keeps, try_keeps,
}
use tersecontext.Graph.Store.{NodeProps, Node, ImportTarget, node, pkg, Import, Graph, Rel}
use tersecontext.Graph.Write.{is_node}
use tersecontext.Pending.{PendingRef, Entry, malformed, ref, is_expired}
use tersecontext.Resolver.{
  ParsedNode, ParsedFileEvent, ImportInfo, from_module, plain, State, World, same_target, import_of,
  merge_import, parse_import_body,
}
use tersecontext.Resolver.Process.{
  Message, command, run_lookup, link, lookup_again, linked, write_edge, resolve_import, packaged,
  rpush, write_package_edge, push, drain, after_retry, retry_each, retry_list, unless,
  import_symbol, import_package, import_all, import_node, process_event, event_or_raise, xack,
  handle, consume,
}

abbrev pub is_same : Import → Import → Bool
is_same i j = i.source_id == j.source_id && same_target i.target j.target

abbrev pub IsFresh : Import → List Import → Type 0
IsFresh i = All (λ j. is_same i j ≡ false)

abbrev pub AreDistinct : List Import → Type 0
AreDistinct [] = Unit
AreDistinct (i ∷ imports) = IsFresh i imports × AreDistinct imports

module _ {F : Type 0} where
  abbrev pub target_exists : Dict (Node F) → ImportTarget → Bool
  target_exists nodes (node id) = Dict.has id nodes
  target_exists nodes (pkg name repo) = true

  abbrev pub Joins : Dict (Node F) → Import → Type 0
  Joins nodes i = (Dict.has i.source_id nodes && target_exists nodes i.target) ≡ true

  -- Each import starts at a node and ends at a node or a package, and stands once.
  pub record AreImports (nodes : Dict (Node F)) (imports : List Import) : Type 0 where
    pub joins : All (Joins nodes) imports
    pub distinct : AreDistinct imports

  pub record IsLinked (start g : Graph F) : Type 0 where
    pub nodes : g.nodes ≡ start.nodes
    pub calls : g.calls ≡ start.calls
    pub imports : AreImports start.nodes g.imports

same_target-eq : (t u : ImportTarget) → same_target t u ≡ true → t ≡ u
same_target-eq (node a) (node b) h = ground (arith, eq_iff a b)
same_target-eq (node a) (pkg p r) h = ground arith
same_target-eq (pkg p r) (node b) h = ground arith
same_target-eq (pkg p r) (pkg q s) h = ground (arith, eq_iff p q, eq_iff r s)

merge_import-IsFresh :
    (now : ℕ) (a : String) (t : ImportTarget) (i : Import) (imports : List Import)
    → is_same i (import_of now a t) ≡ false
    → IsFresh i imports
    → IsFresh i (merge_import now a t imports)
unfolding merge_import
merge_import-IsFresh now a t i [] h f = (h, tt)
merge_import-IsFresh now a t i (j ∷ imports) h f =
    elim (Bool-cases (j.source_id == a && same_target j.target t)) [
      | inl e ↦ rw e (h, f.1)
      | inr e ↦ rw e (f.0, merge_import-IsFresh now a t i imports h f.1)
    ]

IsFresh-same :
    (i j : Import) (imports : List Import)
    → i.source_id ≡ j.source_id
    → i.target ≡ j.target
    → IsFresh i imports
    → IsFresh j imports
IsFresh-same i j [] e d f = tt
IsFresh-same i j (k ∷ imports) e d f =
    (rw (sym e) (rw (sym d) f.0), IsFresh-same i j imports e d f.1)

merge_import-AreDistinct :
    (now : ℕ) (a : String) (t : ImportTarget) (imports : List Import)
    → AreDistinct imports
    → AreDistinct (merge_import now a t imports)
unfolding merge_import
merge_import-AreDistinct now a t [] d = (tt, tt)
merge_import-AreDistinct now a t (j ∷ imports) d =
    elim (Bool-cases (j.source_id == a && same_target j.target t)) [
      | inl e ↦
          let es : j.source_id ≡ a = ground (arith, eq_iff j.source_id a) in
          let et : j.target ≡ t = same_target-eq j.target t (ground arith) in
          rw e (IsFresh-same j (import_of now a t) imports es et d.0, d.1)
      | inr e ↦ rw e (
        merge_import-IsFresh now a t j imports e d.0,
        merge_import-AreDistinct now a t imports d.1,
      )
    ]

module _ {F : Type 0} (nodes : Dict (Node F)) where
  merge_import-Joins :
      (now : ℕ) (a : String) (t : ImportTarget) (imports : List Import)
      → Joins nodes (import_of now a t)
      → All (Joins nodes) imports
      → All (Joins nodes) (merge_import now a t imports)
  unfolding merge_import
  merge_import-Joins now a t [] h js = (h, tt)
  merge_import-Joins now a t (j ∷ imports) h js =
      elim (Bool-cases (j.source_id == a && same_target j.target t)) [
        | inl e ↦ rw e (h, js.1)
        | inr e ↦ rw e (js.0, merge_import-Joins now a t imports h js.1)
      ]

module _ {F : Type 0} (start : Graph F) where
  abbrev pub P : State F → Type 0
  P s = IsLinked start s.graph

  abbrev pub IsKeeping : {A : Type 0} → Action (State F) A → Type 0
  IsKeeping m = (s : State F) → P s → P (m s).1

  module _ (world : World) (now : ℕ) (is_up : ℕ → Bool) where
    link-P :
        (a : String) (t : ImportTarget) (s : State F)
        → (is_node a s.graph && target_exists s.graph.nodes t) ≡ true
        → P s
        → P (link world now is_up a t s)
    link-P a t s e h = record {
      nodes = h.nodes;
      calls = h.calls;
      imports = record {
        joins =
            merge_import-Joins start.nodes now a t s.graph.imports (rw (sym h.nodes) e)
              h.imports.joins;
        distinct = merge_import-AreDistinct now a t s.graph.imports h.imports.distinct;
      };
    }

    pub command-IsKeeping :
        {A : Type 0} (change : State F → A × State F)
        → ((s : State F) → P s → P (change s).1)
        → IsKeeping (command world now is_up change)
    unfolding command
    command-IsKeeping change k s h = elim (Bool-cases (is_up s.commands)) [
      | inl e ↦ rw e (k (record s { commands = suc s.commands }) h)
      | inr e ↦ rw e h
    ]

    pub linked-P : (a b : String) (s : State F) → P s → P (linked world now is_up a b s).1
    linked-P a b s h = elim (Bool-cases (is_node a s.graph && is_node b s.graph)) [
      | inl e ↦ rw e (link-P a (node b) s e h)
      | inr e ↦ rw e h
    ]

    pub packaged-P : (a p r : String) (s : State F) → P s → P (packaged world now is_up a p r s).1
    packaged-P a p r s h = elim (Bool-cases (is_node a s.graph)) [
      | inl e ↦ rw e (link-P a (pkg p r) s (ground arith) h)
      | inr e ↦ rw e h
    ]
