-- ===== src/Graph/Store.antt =====
-- The state of the graph: nodes under their stable_id, which is unique, CALLS and IMPORTS edges.
use tersecontext.Prelude.{
  ℕ, String, Bool, ◌&&◌, Option, none, some, List, [], ◌∷◌, ◌==◌, ◌≡◌, refl, eq_iff, arith,
  if◌then◌else◌,
}
use tersecontext.Prelude.Dict.{Dict}

-- The properties that graph-writer sets on a node.
pub record NodeProps : Type 0 where
  pub name : String
  pub type : String
  pub signature : String
  pub docstring : String
  pub body : String
  pub file_path : String
  pub qualified_name : String
  pub language : String
  pub repo : String
  pub embed_text : String
  pub node_hash : String

-- Times are those of `datetime()`; `F` is the type of floats. An unset property is `none`.
pub record Node (F : Type 0) : Type 0 where
  pub props : Option NodeProps
  pub active : Option Bool
  pub updated_at : Option ℕ
  pub deleted_at : Option ℕ
  pub observed_calls : Option ℕ
  pub avg_latency_ms : Option F
  pub branch_coverage : Option F
  pub last_traced_at : Option ℕ

-- The values of `r.source`.
pub data Provenance : Type 0 where
  static dynamic confirmed conflict : Provenance

-- A CALLS edge.
pub record Rel : Type 0 where
  pub source_id : String
  pub target_id : String
  pub source : Option Provenance
  pub observed_count : Option ℕ
  pub confirmed_at : Option ℕ
  pub updated_at : Option ℕ
  pub detail : Option String

pub data ImportTarget : Type 0 where
  node : String → ImportTarget
  pkg : (name repo : String) → ImportTarget

-- An IMPORTS edge, to a node or to a package.
pub record Import : Type 0 where
  pub source_id : String
  pub target : ImportTarget
  pub source : Option Provenance
  pub updated_at : Option ℕ

pub record Graph (F : Type 0) : Type 0 where
  pub nodes : Dict (Node F)
  pub calls : List Rel
  pub imports : List Import

abbrev pub is_key : String → String → Rel → Bool
is_key a b r = r.source_id == a && r.target_id == b

unfoldable pub find_rel : String → String → List Rel → Option Rel
find_rel a b [] = none
find_rel a b (r ∷ rels) = if is_key a b r then some r else find_rel a b rels

abbrev pub bare : String → String → Rel
bare a b = record {
  source_id = a;
  target_id = b;
  source = none;
  observed_count = none;
  confirmed_at = none;
  updated_at = none;
  detail = none;
}

abbrev pub or_bare : String → String → Option Rel → Rel
or_bare a b none = bare a b
or_bare a b (some r) = r

-- `MERGE (a)-[r:CALLS]->(b) SET ...`
unfoldable pub merge_rel : String → String → (Rel → Rel) → List Rel → List Rel
merge_rel a b set [] = set (bare a b) ∷ []
merge_rel a b set (r ∷ rels) = if is_key a b r then set r ∷ rels else r ∷ merge_rel a b set rels

-- A SET that leaves the ends of the edge alone.
pub record KeepsKey (set : Rel → Rel) : Type 0 where
  pub source : (r : Rel) → (set r).source_id ≡ r.source_id
  pub target : (r : Rel) → (set r).target_id ≡ r.target_id

module _ (set : Rel → Rel) (keeps : KeepsKey set) where
  pub find_rel-merge_rel :
      (a b c d : String) (rels : List Rel)
      → find_rel c d (merge_rel a b set rels) ≡ (
          if a == c && b == d
          then some (set (or_bare a b (find_rel a b rels)))
          else find_rel c d rels)
  unfolding find_rel merge_rel
  find_rel-merge_rel a b c d [] = ground (arith, keeps.source (bare a b), keeps.target (bare a b))
  find_rel-merge_rel a b c d (r ∷ rels) = ground (
    arith,
    keeps.source r,
    keeps.target r,
    find_rel-merge_rel a b c d rels,
    eq_iff r.source_id a,
    eq_iff r.target_id b,
    eq_iff r.source_id c,
    eq_iff r.target_id d,
    eq_iff a c,
    eq_iff b d,
  )

-- `MATCH (a)-[r:CALLS]->(b) WHERE ... SET ...`: each edge by itself.
abbrev pub update_rels : (Rel → Rel) → List Rel → List Rel
update_rels set [] = []
update_rels set (r ∷ rels) = set r ∷ update_rels set rels

abbrev pub on_some : (Rel → Rel) → Option Rel → Option Rel
on_some set none = none
on_some set (some r) = some (set r)

module _ (set : Rel → Rel) (keeps : KeepsKey set) where
  pub find_rel-update_rels :
      (a b : String) (rels : List Rel)
      → find_rel a b (update_rels set rels) ≡ on_some set (find_rel a b rels)
  unfolding find_rel
  find_rel-update_rels a b [] = refl
  find_rel-update_rels a b (r ∷ rels) =
      ground (arith, keeps.source r, keeps.target r, find_rel-update_rels a b rels)
