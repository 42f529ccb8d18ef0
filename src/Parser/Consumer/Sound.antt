-- ===== src/Parser/Consumer/Sound.antt =====
-- The edges of what the parser publishes.
use tersecontext.Prelude.{
  ℕ, String, Bool, false, ◌≡◌, refl, Option, List, [], ◌∷◌, ◌==◌, elem, keep, All, arith,
  Bool-cases, inl, inr,
}
use tersecontext.Prelude.Effects.{ok}
use tersecontext.Prelude.Results.{Holds, Holds-bind, Holds-chain, if-Holds}
use tersecontext.Parser.Models.{
  DiffType, added, modified, deleted, full_rescan, FileChangedEvent, ParsedNode, IntraFileEdge,
  ParsedFileEvent,
}
use tersecontext.Parser.Tree.{Node}
use tersecontext.Parser.Named.{IsIn}
use tersecontext.Parser.Edges.{ids, has_edge, emitted, filter_of, apply_diff_filter}
use tersecontext.Parser.Edges.Exact.{AreDistinct}
use tersecontext.Parser.Edges.Sound.{Joins, AreEdges, IsFile, extract-IsFile, extract_go-IsFile}
use tersecontext.Parser.Consumer.{
  World, parse, extractor, file_of, contents, event_or_raise, parsed_file, output,
}

abbrev pub Starts : List ParsedNode → IntraFileEdge → Type 0
Starts nodes e =
    IsIn nodes e.source_stable_id × ((e.source_stable_id == e.target_stable_id) ≡ false)

-- Each edge starts at one of the nodes, does not end where it starts, and stands once.
pub record IsSound (file : List ParsedNode × List IntraFileEdge) : Type 0 where
  pub starts : All (Starts file.0) file.1
  pub distinct : AreDistinct file.1

Starts-of-Joins :
    (nodes : List ParsedNode) (edges : List IntraFileEdge)
    → All (Joins nodes) edges
    → All (Starts nodes) edges
Starts-of-Joins nodes [] h = tt
Starts-of-Joins nodes (e ∷ edges) h = ((h.0.0, h.0.2), Starts-of-Joins nodes edges h.1)

keep-Starts :
    (nodes kept : List ParsedNode) (edges : List IntraFileEdge)
    → All (Starts nodes) edges
    → All (Starts kept) (keep (λ (e : IntraFileEdge). elem e.source_stable_id (ids kept)) edges)
keep-Starts nodes kept [] h = tt
keep-Starts nodes kept (e ∷ edges) h = elim (Bool-cases (elem e.source_stable_id (ids kept))) [
  | inl i ↦ rw i ((i, h.0.1), keep-Starts nodes kept edges h.1)
  | inr i ↦ rw i (keep-Starts nodes kept edges h.1)
]

has_edge-keep :
    (s t : String) (p : IntraFileEdge → Bool) (edges : List IntraFileEdge)
    → has_edge s t edges ≡ false
    → has_edge s t (keep p edges) ≡ false
has_edge-keep s t p [] h = refl
has_edge-keep s t p (e ∷ edges) h = ground (arith, has_edge-keep s t p edges)

keep-AreDistinct :
    (p : IntraFileEdge → Bool) (edges : List IntraFileEdge)
    → AreDistinct edges
    → AreDistinct (keep p edges)
keep-AreDistinct p [] d = tt
keep-AreDistinct p (e ∷ edges) d = elim (Bool-cases (p e)) [
  | inl i ↦ rw i (
    has_edge-keep e.source_stable_id e.target_stable_id p edges d.0,
    keep-AreDistinct p edges d.1,
  )
  | inr i ↦ rw i (keep-AreDistinct p edges d.1)
]

filter_of-IsSound :
    (type : DiffType) (event : FileChangedEvent) (nodes : List ParsedNode)
    (edges : List IntraFileEdge)
    → AreEdges nodes edges
    → IsSound (filter_of type event nodes edges)
filter_of-IsSound deleted event nodes edges a = record { starts = tt; distinct = tt }
filter_of-IsSound modified event nodes edges a = record {
  starts =
      keep-Starts nodes (keep (emitted event) nodes) edges (Starts-of-Joins nodes edges a.joins);
  distinct = keep-AreDistinct _ edges a.distinct;
}
filter_of-IsSound added event nodes edges a = record {
  starts = Starts-of-Joins nodes edges a.joins;
  distinct = a.distinct;
}
filter_of-IsSound full_rescan event nodes edges a = record {
  starts = Starts-of-Joins nodes edges a.joins;
  distinct = a.distinct;
}

abbrev pub IsSoundEvent : ParsedFileEvent → Type 0
IsSoundEvent out = IsSound (out.nodes, out.intra_file_edges)

module _ (world : World) where
  -- Whatever tree a Python or Go file has: if its nodes and edges can be extracted, every edge joins two
  -- different nodes of the file, and no edge stands twice.
  pub extractor-IsFile :
      (language : String) (source : List ℕ) (repo path : String) (root : Node)
      → Holds IsFile (extractor world language source repo path root)
  extractor-IsFile language source repo path root =
      if-Holds IsFile (language == "go") _ _ (extract_go-IsFile world.py source repo path root)
        (extract-IsFile world.py source repo path root)

  filtered-IsSound :
      (event : FileChangedEvent) (file : List ParsedNode × List IntraFileEdge)
      → IsFile file
      → IsSound (apply_diff_filter event file.0 file.1)
  unfolding apply_diff_filter
  filtered-IsSound event file h = filter_of-IsSound event.diff_type event file.0 file.1 h

  file_of-IsSound : (event : FileChangedEvent) → Holds IsSound (file_of world event)
  file_of-IsSound event = Holds-bind IsSound (world.read event.repo event.path) _ λ source.
      Holds-bind IsSound (parse world source event.language) _ λ root.
        Holds-chain IsSound IsFile _
          (λ (file : List ParsedNode × List IntraFileEdge).
            ok (apply_diff_filter event file.0 file.1))
          (extractor-IsFile event.language source event.repo event.path root)
          (filtered-IsSound event)

  contents-IsSound :
      (type : DiffType) (event : FileChangedEvent) → Holds IsSound (contents world type event)
  contents-IsSound deleted event = record { starts = tt; distinct = tt }
  contents-IsSound added event = file_of-IsSound event
  contents-IsSound modified event = file_of-IsSound event
  contents-IsSound full_rescan event = file_of-IsSound event

  pub output-IsSoundEvent : (raw : Option String) → Holds IsSoundEvent (output world raw)
  unfolding output
  output-IsSoundEvent raw = Holds-bind IsSoundEvent (event_or_raise world raw) _ λ event.
      Holds-chain IsSoundEvent IsSound _
        (λ (file : List ParsedNode × List IntraFileEdge). ok (parsed_file world event file))
        (contents-IsSound event.diff_type event) (λ file h. h)
