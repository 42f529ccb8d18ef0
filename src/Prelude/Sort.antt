-- ===== src/Prelude/Sort.antt =====
-- Python's `sorted`: a stable sort by a strict order, here by insertion. Two keys of which neither is
-- before the other keep their order.
use tersecontext.Prelude.Tests.{if◌then◌else◌, Bool-cases}
use tersecontext.Prelude.Lists.{All, length}
use Prim.Native.Nat.{suc, ◌+◌}
use mathlib.Core.Path.{◌≡◌, refl}
use mathlib.Core.Logic.{inl, inr}
use mathlib.Core.Bool.{Bool, true, false}
use mathlib.Core.List.{List, [], ◌∷◌, ◌++◌, Perm, perm_middle, append-nil}
use mathlib.Core.List.Perm
use native.Mathlib.Omega.{arith}

module _ {A : Type 0} (before : A → A → Bool) where
  -- Behind everything that is not after `x`.
  unfoldable pub insert : A → List A → List A
  insert x [] = x ∷ []
  insert x (y ∷ ys) = let rest = insert x ys in if before x y then x ∷ y ∷ ys else y ∷ rest

  -- The elements are inserted from the left, `done` being sorted already.
  unfoldable pub sort_onto : List A → List A → List A
  unfolding insert
  sort_onto done [] = done
  sort_onto done (x ∷ xs) = sort_onto (insert x done) xs

  unfoldable pub sorted : List A → List A
  unfolding sort_onto
  sorted = sort_onto []

  -- Nothing stands behind an element that it is before.
  abbrev pub IsSorted : List A → Type 0
  IsSorted [] = Unit
  IsSorted (x ∷ xs) = All (λ y. before y x ≡ false) xs × IsSorted xs

  pub length-insert : (x : A) (ys : List A) → length (insert x ys) ≡ suc (length ys)
  unfolding insert
  length-insert x [] = refl
  length-insert x (y ∷ ys) = ground (arith, length-insert x ys)

  length-sort_onto : (done xs : List A) → length (sort_onto done xs) ≡ length done + length xs
  unfolding sort_onto
  length-sort_onto done [] = omega arith
  length-sort_onto done (x ∷ xs) =
      omega (arith, length-sort_onto (insert x done) xs, length-insert x done)

  pub length-sorted : (xs : List A) → length (sorted xs) ≡ length xs
  unfolding sorted
  length-sorted xs = omega (arith, length-sort_onto [] xs)

  insert-perm : (x : A) (ys : List A) → Perm (insert x ys) (x ∷ ys)
  unfolding insert
  insert-perm x [] = Perm.refl _
  insert-perm x (y ∷ ys) = elim (Bool-cases (before x y)) [
    | inl e ↦ rw e (Perm.refl _)
    | inr e ↦ rw e (Perm.trans (Perm.cons y (insert-perm x ys)) (Perm.swap x y ys))
  ]

  sort_onto-perm : (done xs : List A) → Perm (sort_onto done xs) (xs ++ done)
  unfolding sort_onto
  sort_onto-perm done [] = Perm.refl _
  sort_onto-perm done (x ∷ xs) =
      Perm.trans (sort_onto-perm (insert x done) xs)
        (Perm.trans (Perm.append (Perm.refl xs) (insert-perm x done)) (perm_middle xs done))

  pub sorted-perm : (xs : List A) → Perm (sorted xs) xs
  unfolding sorted
  sorted-perm xs = rw append-nil at (sort_onto-perm [] xs)

  All-of-insert : (P : A → Type 0) (x : A) (ys : List A) → All P (insert x ys) → P x × All P ys
  unfolding insert
  All-of-insert P x [] a = a
  All-of-insert P x (y ∷ ys) a = elim (Bool-cases (before x y)) [
    | inl e ↦
        let a' : All P (if true then x ∷ y ∷ ys else y ∷ insert x ys) = rw e at a in (a'.0, a'.1)
    | inr e ↦
        let a' : All P (if false then x ∷ y ∷ ys else y ∷ insert x ys) = rw e at a in
        let rest = All-of-insert P x ys a'.1 in (rest.0, (a'.0, rest.1))
  ]

  All-of-sort_onto :
      (P : A → Type 0) (done xs : List A) → All P (sort_onto done xs) → All P done × All P xs
  unfolding sort_onto
  All-of-sort_onto P done [] a = (a, tt)
  All-of-sort_onto P done (x ∷ xs) a =
      let (d, rest) = All-of-sort_onto P (insert x done) xs a in
      let (h, d') = All-of-insert P x done d in (d', (h, rest))

  pub All-of-sorted : (P : A → Type 0) (xs : List A) → All P (sorted xs) → All P xs
  unfolding sorted
  All-of-sorted P xs a = (All-of-sort_onto P [] xs a).1

  -- Holds of a strict order whose incomparable elements are equivalent.
  pub record IsWeakOrder : Type 0 where
    pub asym : (x y : A) → before x y ≡ true → before y x ≡ false
    pub trans : (x y z : A) → before y x ≡ false → before z y ≡ false → before z x ≡ false

  module _ (order : IsWeakOrder) where
    All-insert : (P : A → Type 0) (x : A) (ys : List A) → P x → All P ys → All P (insert x ys)
    unfolding insert
    All-insert P x [] h a = (h, tt)
    All-insert P x (y ∷ ys) h a = elim (Bool-cases (before x y)) [
      | inl e ↦ rw e (h, a)
      | inr e ↦ rw e (a.0, All-insert P x ys h a.1)
    ]

    All-after :
        (x y : A) (ys : List A)
        → before y x ≡ false
        → All (λ z. before z y ≡ false) ys
        → All (λ z. before z x ≡ false) ys
    All-after x y [] h a = tt
    All-after x y (z ∷ ys) h a = (order.trans x y z h a.0, All-after x y ys h a.1)

    insert-IsSorted : (x : A) (ys : List A) → IsSorted ys → IsSorted (insert x ys)
    unfolding insert
    insert-IsSorted x [] s = (tt, tt)
    insert-IsSorted x (y ∷ ys) s = elim (Bool-cases (before x y)) [
      | inl e ↦ rw e ((order.asym x y e, All-after x y ys (order.asym x y e) s.0), s)
      | inr e ↦ rw e (All-insert (λ z. before z y ≡ false) x ys e s.0, insert-IsSorted x ys s.1)
    ]

    sort_onto-IsSorted : (done xs : List A) → IsSorted done → IsSorted (sort_onto done xs)
    unfolding sort_onto
    sort_onto-IsSorted done [] s = s
    sort_onto-IsSorted done (x ∷ xs) s =
        sort_onto-IsSorted (insert x done) xs (insert-IsSorted x done s)

    pub sorted-IsSorted : (xs : List A) → IsSorted (sorted xs)
    unfolding sorted
    sorted-IsSorted xs = sort_onto-IsSorted [] xs tt
