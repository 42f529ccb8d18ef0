-- ===== src/Discoverer/Ranking.antt =====
-- The order in which entrypoints are traced.
use tersecontext.Prelude.{
  ℕ, ◌≤◌, ◌<◌, String, Bool, true, false, ◌⊎◌, inl, inr, Option, none, some, List, [], ◌∷◌, ◌++◌,
  ◌≡◌, refl, append_assoc, append-nil, eqb, keep, elem, All, All-append, arith, map, not, ◌&&◌,
  Bool-cases, ap, ◌∙◌,
}
use tersecontext.Prelude.Dict
use tersecontext.Prelude.Dict.{Dict}
use tersecontext.Prelude.Sort.{insert, sort_onto, sorted}
use tersecontext.Discoverer.{
  EntrypointJob, Entrypoint, detect_language, priority_of, job_of, jobs_of, is_before,
  score_entrypoints,
}

insert_past :
    (x : EntrypointJob) (ys zs : List EntrypointJob)
    → All (λ y. is_before x y ≡ false) ys
    → insert is_before x (ys ++ zs) ≡ ys ++ insert is_before x zs
unfolding insert
insert_past x [] zs h = refl
insert_past x (y ∷ ys) zs h = ground (arith, h.0, insert_past x ys zs h.1)

insert_front :
    (x : EntrypointJob) (zs : List EntrypointJob)
    → All (λ z. is_before x z ≡ true) zs
    → insert is_before x zs ≡ x ∷ zs
unfolding insert
insert_front x [] h = refl
insert_front x (z ∷ zs) h = ground (arith, h.0)

abbrev pub has_priority : ℕ → EntrypointJob → Bool
has_priority n j = eqb j.priority n

abbrev AllWith : ℕ → List EntrypointJob → Type 0
AllWith n = All (λ j. j.priority ≡ n)

not_before :
    (x : EntrypointJob) (n : ℕ) (ys : List EntrypointJob)
    → x.priority ≤ n
    → AllWith n ys
    → All (λ y. is_before x y ≡ false) ys
not_before x n [] le h = tt
not_before x n (y ∷ ys) le h = (ground (arith, h.0, le), not_before x n ys le h.1)

before_others :
    (x : EntrypointJob) (n : ℕ) (ys : List EntrypointJob)
    → n < x.priority
    → AllWith n ys
    → All (λ y. is_before x y ≡ true) ys
before_others x n [] lt h = tt
before_others x n (y ∷ ys) lt h = (ground (arith, h.0, lt), before_others x n ys lt h.1)

-- Where a job goes among the blocks of the three priorities.
module _ (x : EntrypointJob) (t u v : List EntrypointJob) (ht : AllWith 3 t) (hu : AllWith 2 u)
    (hv : AllWith 1 v) where
  into_first : x.priority ≡ 3 → insert is_before x (t ++ (u ++ v)) ≡ (t ++ x ∷ []) ++ (u ++ v)
  into_first e =
      let behind =
        All-append (λ z. is_before x z ≡ true) u v (before_others x 2 u (omega arith) hu)
          (before_others x 1 v (omega arith) hv) in
      cc (
        insert_past x t (u ++ v) (not_before x 3 t (omega arith) ht),
        insert_front x (u ++ v) behind,
        append_assoc t (x ∷ []) (u ++ v),
      )

  into_second : x.priority ≡ 2 → insert is_before x (t ++ (u ++ v)) ≡ t ++ ((u ++ x ∷ []) ++ v)
  into_second e = cc (
    insert_past x t (u ++ v) (not_before x 3 t (omega arith) ht),
    insert_past x u v (not_before x 2 u (omega arith) hu),
    insert_front x v (before_others x 1 v (omega arith) hv),
    append_assoc u (x ∷ []) v,
  )

  into_third : x.priority ≡ 1 → insert is_before x (t ++ (u ++ v)) ≡ t ++ (u ++ (v ++ x ∷ []))
  unfolding insert
  into_third e = cc (
    insert_past x t (u ++ v) (not_before x 3 t (omega arith) ht),
    insert_past x u v (not_before x 2 u (omega arith) hu),
    insert_past x v [] (not_before x 1 v (omega arith) hv),
    append-nil v,
  )

-- The three priorities, in three blocks.
sort_onto_blocks :
    (t u v xs : List EntrypointJob)
    → AllWith 3 t
    → AllWith 2 u
    → AllWith 1 v
    → All (λ x. (x.priority ≡ 3) ⊎ ((x.priority ≡ 2) ⊎ (x.priority ≡ 1))) xs
    → sort_onto is_before (t ++ (u ++ v)) xs
      ≡ (t ++ keep (has_priority 3) xs)
        ++ ((u ++ keep (has_priority 2) xs) ++ (v ++ keep (has_priority 1) xs))
unfolding sort_onto
sort_onto_blocks t u v [] ht hu hv h = simp append-nil
sort_onto_blocks t u v (x ∷ xs) ht hu hv h =
    let end : (n : ℕ) (ys : List EntrypointJob)
        → AllWith n ys
        → x.priority ≡ n
        → AllWith n (ys ++ x ∷ []) =
      λ n ys a e. All-append (λ j. j.priority ≡ n) ys (x ∷ []) a (e, tt) in
    elim h.0 [
      | inl e ↦ ground (
        arith,
        e,
        into_first x t u v ht hu hv e,
        sort_onto_blocks (t ++ x ∷ []) u v xs (end 3 t ht e) hu hv h.1,
        append_assoc t (x ∷ []) (keep (has_priority 3) xs),
      )
      | inr (inl e) ↦ ground (
        arith,
        e,
        into_second x t u v ht hu hv e,
        sort_onto_blocks t (u ++ x ∷ []) v xs ht (end 2 u hu e) hv h.1,
        append_assoc u (x ∷ []) (keep (has_priority 2) xs),
      )
      | inr (inr e) ↦ ground (
        arith,
        e,
        into_third x t u v ht hu hv e,
        sort_onto_blocks t u (v ++ x ∷ []) xs ht hu (end 1 v hv e) h.1,
        append_assoc v (x ∷ []) (keep (has_priority 1) xs),
      )
    ]

priority-job_of :
    (last_traced : Option ℕ) (changed : Bool)
    → (priority_of last_traced changed ≡ 3)
      ⊎ ((priority_of last_traced changed ≡ 2) ⊎ (priority_of last_traced changed ≡ 1))
priority-job_of none changed = inr (inl refl)
priority-job_of (some t) true = inl refl
priority-job_of (some t) false = inr (inr refl)

module _ (last_traced_map : Dict ℕ) (changed_dep_ids : List String) (repo : String) where
  priority-jobs_of :
      (eps : List Entrypoint)
      → All
          (λ x. (x.priority ≡ 3) ⊎ ((x.priority ≡ 2) ⊎ (x.priority ≡ 1)))
          (jobs_of last_traced_map changed_dep_ids repo eps)
  unfolding jobs_of job_of
  priority-jobs_of [] = tt
  priority-jobs_of (ep ∷ eps) = (
    priority-job_of (Dict.get ep.stable_id last_traced_map) (elem ep.stable_id changed_dep_ids),
    priority-jobs_of eps,
  )

  -- The three groups of entrypoints.
  abbrev is_some : Option ℕ → Bool
  is_some none = false
  is_some (some t) = true

  abbrev pub is_new : Entrypoint → Bool
  is_new ep = not (is_some (Dict.get ep.stable_id last_traced_map))

  abbrev pub is_changed : Entrypoint → Bool
  is_changed ep =
      is_some (Dict.get ep.stable_id last_traced_map) && elem ep.stable_id changed_dep_ids

  abbrev pub is_settled : Entrypoint → Bool
  is_settled ep =
      is_some (Dict.get ep.stable_id last_traced_map) && not (elem ep.stable_id changed_dep_ids)

  -- The job of an entrypoint with a priority.
  abbrev pub ranked : ℕ → Entrypoint → EntrypointJob
  ranked n ep = record {
    stable_id = ep.stable_id;
    name = ep.name;
    file_path = ep.file_path;
    priority = n;
    repo = repo;
    language = detect_language ep.file_path;
  }

  keep_jobs :
      (n : ℕ) (group : Entrypoint → Bool)
      → ((ep : Entrypoint)
          → eqb
              (priority_of
                (Dict.get ep.stable_id last_traced_map)
                (elem ep.stable_id changed_dep_ids))
              n
            ≡ group ep)
      → (eps : List Entrypoint)
      → keep (has_priority n) (jobs_of last_traced_map changed_dep_ids repo eps)
        ≡ map (ranked n) (keep group eps)
  unfolding jobs_of job_of
  keep_jobs n group h [] = refl
  keep_jobs n group h (ep ∷ eps) =
      let p =
        priority_of (Dict.get ep.stable_id last_traced_map) (elem ep.stable_id changed_dep_ids) in
      elim (Bool-cases (group ep)) [
        | inl mine ↦
            let same : p ≡ n = ground (arith, h ep, mine) in
            rw (h ep, mine) (cc (ap (λ q. ranked q ep) same, keep_jobs n group h eps))
        | inr other ↦ rw (h ep, other) (keep_jobs n group h eps)
      ]

  new_priority :
      (last_traced : Option ℕ) (changed : Bool)
      → eqb (priority_of last_traced changed) 2 ≡ not (is_some last_traced)
  new_priority none changed = refl
  new_priority (some t) true = refl
  new_priority (some t) false = refl

  changed_priority :
      (last_traced : Option ℕ) (changed : Bool)
      → eqb (priority_of last_traced changed) 3 ≡ (is_some last_traced && changed)
  changed_priority none changed = refl
  changed_priority (some t) true = refl
  changed_priority (some t) false = refl

  settled_priority :
      (last_traced : Option ℕ) (changed : Bool)
      → eqb (priority_of last_traced changed) 1 ≡ (is_some last_traced && not changed)
  settled_priority none changed = refl
  settled_priority (some t) true = refl
  settled_priority (some t) false = refl

  -- The entrypoints are ranked in three groups, each in the order in which the graph gave them: first
  -- those with a last trace whose dependencies changed, with priority 3, then those never traced, with
  -- 2, then those with a last trace and no change, with 1; each job has the fields of its entrypoint.
  pub score_entrypoints-ranks :
      (eps : List Entrypoint)
      → score_entrypoints eps last_traced_map changed_dep_ids repo
        ≡ map (ranked 3) (keep is_changed eps)
          ++ (map (ranked 2) (keep is_new eps) ++ map (ranked 1) (keep is_settled eps))
  unfolding score_entrypoints sorted
  score_entrypoints-ranks eps =
      sort_onto_blocks [] [] [] (jobs_of last_traced_map changed_dep_ids repo eps) tt tt tt
        (priority-jobs_of eps)
      ∙ cc (
        keep_jobs 3 is_changed
            (λ ep.
              changed_priority (Dict.get ep.stable_id last_traced_map)
                (elem ep.stable_id changed_dep_ids))
            eps,
        keep_jobs 2 is_new
            (λ ep.
              new_priority (Dict.get ep.stable_id last_traced_map)
                (elem ep.stable_id changed_dep_ids))
            eps,
        keep_jobs 1 is_settled
            (λ ep.
              settled_priority (Dict.get ep.stable_id last_traced_map)
                (elem ep.stable_id changed_dep_ids))
            eps,
      )
