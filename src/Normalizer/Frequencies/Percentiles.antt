-- ===== src/Normalizer/Frequencies/Percentiles.antt =====
-- `compute_percentiles` on up to a hundred samples.
use tersecontext.Prelude.{
  ℕ, zero, suc, ◌-◌, ◌*◌, ◌/◌, ◌≤◌, ◌<◌, min, false, List, [], ◌∷◌, ◌≡◌, sym, subst, length, All,
  arith,
}
use mathlib.Core.List.{Mem, mem-cons_self, mem-cons_of_mem}
use mathlib.Core.List.Perm
use tersecontext.Prelude.Float.{Float, FloatLaws}
use tersecontext.Prelude.Sort.{
  sorted, length-sorted, sorted-perm, All-of-sorted, IsSorted, IsWeakOrder, sorted-IsSorted,
}
use tersecontext.Normalizer.Frequencies.{at_index, compute_percentiles}

module _ {F : Type 0} ⦃float : Float F⦄ where
  at_index-mem : (xs : List F) (i : ℕ) → i < length xs → Mem (at_index xs i) xs
  at_index-mem [] i h = elim h [ ]
  at_index-mem (x ∷ xs) zero h = mem-cons_self
  at_index-mem (x ∷ xs) (suc i) h = mem-cons_of_mem x (at_index-mem xs i (omega arith))

  module _ (laws : FloatLaws float) where
    lt-IsWeakOrder : IsWeakOrder float.lt
    lt-IsWeakOrder = record {
      asym = λ x y h. ground (arith, laws.lt-le x y, laws.lt-le y x, laws.le_total y x);
      trans = λ x y z h k.
          ground (arith, laws.lt-le y x, laws.lt-le z y, laws.lt-le z x, laws.le_trans x y z);
    }

    lt_irrefl : (x : F) → float.lt x x ≡ false
    lt_irrefl x = ground (arith, laws.lt-le x x, laws.le_refl x)

    -- Nothing in a sorted list is above its last element.
    last-max :
        (x : F) (xs : List F)
        → IsSorted float.lt (x ∷ xs)
        → (float.lt (at_index (x ∷ xs) (length xs)) x ≡ false)
          × All (λ d. float.lt (at_index (x ∷ xs) (length xs)) d ≡ false) (x ∷ xs)
    last-max x [] s = (lt_irrefl x, (lt_irrefl x, tt))
    last-max x (y ∷ ys) s =
        let (first, rest) = last-max y ys s.1 in
        let below = (lt-IsWeakOrder).trans x y (at_index (y ∷ ys) (length ys)) s.0.0 first in
        (below, (below, rest))

    last_sorted :
        (xs : List F) (n : ℕ)
        → length xs ≡ suc n
        → IsSorted float.lt xs
        → All (λ d. float.lt (at_index xs n) d ≡ false) xs
    last_sorted [] n e s = tt
    last_sorted (x ∷ xs) n e s =
        let e' : n ≡ length xs = omega arith in
        subst (λ (k : ℕ). All (λ d. float.lt (at_index (x ∷ xs) k) d ≡ false) (x ∷ xs)) (sym e')
          ((last-max x xs s).1)

    -- On two to a hundred samples the 99th percentile is one of the samples, and no sample is above it: it is
    -- the largest one.
    pub compute_percentiles-p99 :
        (v w : F) (ds : List F)
        → length ds ≤ 98
        → Mem (compute_percentiles (v ∷ w ∷ ds)).1 (v ∷ w ∷ ds)
          × All (λ d. float.lt (compute_percentiles (v ∷ w ∷ ds)).1 d ≡ false) (v ∷ w ∷ ds)
    unfolding compute_percentiles
    compute_percentiles-p99 v w ds h =
        let samples = v ∷ w ∷ ds in
        let s = sorted float.lt samples in
        let n : length s ≡ suc (suc (length ds)) = length-sorted float.lt samples in
        let i : min (length s * 99 / 100) (length s - 1) ≡ suc (length ds) = omega arith in
        let mem = at_index-mem s (suc (length ds)) (omega arith) in
        let top =
          last_sorted s (suc (length ds)) n (sorted-IsSorted float.lt lt-IsWeakOrder samples) in
        subst
          (λ (k : ℕ).
            Mem (at_index s k) samples × All (λ d. float.lt (at_index s k) d ≡ false) samples)
          (sym i)
          (
            (Perm.mem_iff (sorted-perm float.lt samples)).0 mem,
            All-of-sorted float.lt _ samples top,
          )
