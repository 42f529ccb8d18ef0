-- ===== src/Graph/Provenance/Edges.antt =====
-- What the three ways to change the CALLS edges keep: a SET on each, a MERGE and a DELETE.
use tersecontext.Prelude.{
  String, Bool, true, false, ◌&&◌, ◌||◌, List, [], ◌∷◌, ◌≡◌, eq_iff, Bool-cases, inl, inr, arith,
}
use tersecontext.Prelude.Dict
use tersecontext.Prelude.Dict.{Dict}
use tersecontext.Graph.Store.{Node, Rel, bare, is_key, merge_rel, update_rels, KeepsKey}
use tersecontext.Graph.Write.{drop_calls}
use tersecontext.Graph.Provenance.{is_sound, AllGood, IsFresh, IsUnique}

module _ {F : Type 0} (nodes : Dict (Node F)) where
  pub update-AllGood :
      (set : Rel → Rel) (rels : List Rel)
      → KeepsKey set
      → ((r : Rel) → is_sound r ≡ true → is_sound (set r) ≡ true)
      → AllGood nodes rels
      → AllGood nodes (update_rels set rels)
  update-AllGood set [] keeps sound h = tt
  update-AllGood set (r ∷ rels) keeps sound h = (
    ground (arith, keeps.source r, keeps.target r, sound r, h.0),
    update-AllGood set rels keeps sound h.1,
  )

  pub merge-AllGood :
      (a b : String) (set : Rel → Rel) (rels : List Rel)
      → KeepsKey set
      → ((r : Rel) → is_sound r ≡ true → is_sound (set r) ≡ true)
      → is_sound (set (bare a b)) ≡ true
      → (Dict.has a nodes && Dict.has b nodes) ≡ true
      → AllGood nodes rels
      → AllGood nodes (merge_rel a b set rels)
  unfolding merge_rel
  merge-AllGood a b set [] keeps sound base known h =
      (ground (arith, keeps.source (bare a b), keeps.target (bare a b), base, known), tt)
  merge-AllGood a b set (r ∷ rels) keeps sound base known h = elim (Bool-cases (is_key a b r)) [
    | inl same ↦ rw same (ground (arith, keeps.source r, keeps.target r, sound r, h.0), h.1)
    | inr other ↦ rw other (h.0, merge-AllGood a b set rels keeps sound base known h.1)
  ]

  pub drop-AllGood :
      (cleared : String → Bool) (rels : List Rel)
      → AllGood nodes rels
      → AllGood nodes (drop_calls cleared rels)
  drop-AllGood cleared [] h = tt
  drop-AllGood cleared (r ∷ rels) h =
      elim (Bool-cases (cleared r.source_id || cleared r.target_id)) [
        | inl gone ↦ rw gone (drop-AllGood cleared rels h.1)
        | inr stays ↦ rw stays (h.0, drop-AllGood cleared rels h.1)
      ]

module _ {F : Type 0} (old new : Dict (Node F))
    (grows : (id : String) → Dict.has id old ≡ true → Dict.has id new ≡ true) where
  pub AllGood-grow : (rels : List Rel) → AllGood old rels → AllGood new rels
  AllGood-grow [] h = tt
  AllGood-grow (r ∷ rels) h =
      (ground (arith, grows r.source_id, grows r.target_id, h.0), AllGood-grow rels h.1)

module _ (set : Rel → Rel) (keeps : KeepsKey set) where
  update-IsFresh :
      (r : Rel) (rels : List Rel) → IsFresh r rels → IsFresh (set r) (update_rels set rels)
  update-IsFresh r [] h = tt
  update-IsFresh r (q ∷ rels) h = (
    ground (arith, keeps.source r, keeps.target r, keeps.source q, keeps.target q, h.0),
    update-IsFresh r rels h.1,
  )

  pub update-IsUnique : (rels : List Rel) → IsUnique rels → IsUnique (update_rels set rels)
  update-IsUnique [] h = tt
  update-IsUnique (r ∷ rels) h = (update-IsFresh r rels h.0, update-IsUnique rels h.1)

  set-IsFresh : (r : Rel) (rels : List Rel) → IsFresh r rels → IsFresh (set r) rels
  set-IsFresh r [] h = tt
  set-IsFresh r (q ∷ rels) h =
      (ground (arith, keeps.source r, keeps.target r, h.0), set-IsFresh r rels h.1)

  merge-IsFresh :
      (a b : String) (r : Rel) (rels : List Rel)
      → is_key a b r ≡ false
      → IsFresh r rels
      → IsFresh r (merge_rel a b set rels)
  unfolding merge_rel
  merge-IsFresh a b r [] other h = (
    ground (
      arith,
      keeps.source (bare a b),
      keeps.target (bare a b),
      other,
      eq_iff a r.source_id,
      eq_iff b r.target_id,
      eq_iff r.source_id a,
      eq_iff r.target_id b,
    ),
    tt,
  )
  merge-IsFresh a b r (q ∷ rels) other h = elim (Bool-cases (is_key a b q)) [
    | inl same ↦ rw same (ground (arith, keeps.source q, keeps.target q, h.0), h.1)
    | inr differs ↦ rw differs (h.0, merge-IsFresh a b r rels other h.1)
  ]

  pub merge-IsUnique :
      (a b : String) (rels : List Rel) → IsUnique rels → IsUnique (merge_rel a b set rels)
  unfolding merge_rel
  merge-IsUnique a b [] h = (tt, tt)
  merge-IsUnique a b (r ∷ rels) h = elim (Bool-cases (is_key a b r)) [
    | inl same ↦ rw same (set-IsFresh r rels h.0, h.1)
    | inr differs ↦ rw differs (merge-IsFresh a b r rels differs h.0, merge-IsUnique a b rels h.1)
  ]

module _ (cleared : String → Bool) where
  drop-IsFresh : (r : Rel) (rels : List Rel) → IsFresh r rels → IsFresh r (drop_calls cleared rels)
  drop-IsFresh r [] h = tt
  drop-IsFresh r (q ∷ rels) h = elim (Bool-cases (cleared q.source_id || cleared q.target_id)) [
    | inl gone ↦ rw gone (drop-IsFresh r rels h.1)
    | inr stays ↦ rw stays (h.0, drop-IsFresh r rels h.1)
  ]

  pub drop-IsUnique : (rels : List Rel) → IsUnique rels → IsUnique (drop_calls cleared rels)
  drop-IsUnique [] h = tt
  drop-IsUnique (r ∷ rels) h = elim (Bool-cases (cleared r.source_id || cleared r.target_id)) [
    | inl gone ↦ rw gone (drop-IsUnique rels h.1)
    | inr stays ↦ rw stays (drop-IsFresh r rels h.0, drop-IsUnique rels h.1)
  ]
