-- ===== src/Watcher/Differ/Exact.antt =====
-- Which nodes a comparison of two versions of a file reports.
use tersecontext.Prelude.{
  String, Bool, false, ◌&&◌, not, Option, none, some, List, [], ◌∷◌, ◌==◌, ◌≡◌, refl, sym, elem,
  eq_iff, arith, if◌then◌else◌,
}
use tersecontext.Prelude.Dict
use tersecontext.Prelude.Dict.{Dict}
use tersecontext.Watcher.Models.{ParsedNode}
use tersecontext.Watcher.Differ.{is_some, hashes, differs, changed_in, missing_in, compare}

-- No key stands twice.
abbrev pub IsDict : Dict String → Type 0
IsDict [] = Unit
IsDict ((k, v) ∷ d) = (Dict.get k d ≡ none) × IsDict d

put-IsDict : (k v : String) (d : Dict String) → IsDict d → IsDict (Dict.put k v d)
unfolding Dict.put
put-IsDict k v [] h = (unfold Dict.get in refl, tt)
put-IsDict k v ((j, w) ∷ d) h =
    ground (arith, put-IsDict k v d h.1, h.0, eq_iff j k, eq_iff k j, Dict.get-put k j v d)

hashes-IsDict : (nodes : List ParsedNode) (d : Dict String) → IsDict d → IsDict (hashes nodes d)
unfolding hashes
hashes-IsDict [] d h = h
hashes-IsDict (n ∷ nodes) d h =
    hashes-IsDict nodes (Dict.put n.stable_id n.node_hash d)
      (put-IsDict n.stable_id n.node_hash d h)

-- Both versions have the node, with different hashes.
abbrev pub has_changed : Option String → Option String → Bool
has_changed prev none = false
has_changed prev (some h) = differs h prev

elem-changed_in :
    (sid : String) (prev curr : Dict String)
    → IsDict curr
    → elem sid (changed_in prev curr) ≡ has_changed (Dict.get sid prev) (Dict.get sid curr)
unfolding changed_in Dict.get
elem-changed_in sid prev [] h = refl
elem-changed_in sid prev ((k, v) ∷ curr) h =
    ground (arith, elem-changed_in sid prev curr h.1, h.0, eq_iff k sid)

elem-missing_in :
    (sid : String) (other d : Dict String)
    → elem sid (missing_in other d)
      ≡ (is_some (Dict.get sid d) && not (is_some (Dict.get sid other)))
unfolding missing_in Dict.get
elem-missing_in sid other [] = refl
elem-missing_in sid other ((k, v) ∷ d) = ground (arith, elem-missing_in sid other d, eq_iff k sid)

-- The hash of a node in a version: that of its last definition.
abbrev pub hash_in : String → List ParsedNode → Option String
hash_in sid [] = none
hash_in sid (n ∷ nodes) =
    let later = hash_in sid nodes in
    elim later [ some h ↦ some h | none ↦ if n.stable_id == sid then some n.node_hash else none ]

abbrev or_else : Option String → Option String → Option String
or_else (some h) o = some h
or_else none o = o

get-hashes :
    (sid : String) (nodes : List ParsedNode) (d : Dict String)
    → Dict.get sid (hashes nodes d) ≡ or_else (hash_in sid nodes) (Dict.get sid d)
unfolding hashes
get-hashes sid [] d = refl
get-hashes sid (n ∷ nodes) d = ground (
  arith,
  get-hashes sid nodes (Dict.put n.stable_id n.node_hash d),
  Dict.get-put n.stable_id sid n.node_hash d,
)

get-hashes-nil :
    (sid : String) (nodes : List ParsedNode) → Dict.get sid (hashes nodes []) ≡ hash_in sid nodes
get-hashes-nil sid nodes = unfold Dict.get in ground (arith, get-hashes sid nodes [])

-- A node is reported as changed exactly if both versions have it with different hashes, as added
-- exactly if only the new one has it, and as deleted exactly if only the old one has it; where a
-- version defines a node twice, its last definition counts.
pub compare_exact :
    (sid : String) (prev curr : List ParsedNode)
    → (elem sid (compare prev curr).0 ≡ has_changed (hash_in sid prev) (hash_in sid curr))
      × (elem sid (compare prev curr).1
          ≡ (is_some (hash_in sid curr) && not (is_some (hash_in sid prev))))
      × (elem sid (compare prev curr).2
          ≡ (is_some (hash_in sid prev) && not (is_some (hash_in sid curr))))
unfolding compare
compare_exact sid prev curr =
    let old = hashes prev [] in
    let new = hashes curr [] in
    rw (sym (get-hashes-nil sid prev), sym (get-hashes-nil sid curr))
      (
        elem-changed_in sid old new (hashes-IsDict curr [] tt),
        elem-missing_in sid old new,
        elem-missing_in sid new old,
      )
