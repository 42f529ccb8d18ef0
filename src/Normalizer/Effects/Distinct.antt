-- ===== src/Normalizer/Effects/Distinct.antt =====
-- The list that `classify_side_effects` returns, against the calls of the trace.
use tersecontext.Prelude.{
  ℕ, suc, ◌-◌, String, true, false, ◌||◌, Option, none, some, List, [], ◌∷◌, ◌++◌, ◌≡◌, refl, sym,
  ap, ◌∙◌, eq_iff, append_assoc, append-nil, inl, inr, Bool-cases, arith, map, if◌then◌else◌,
}
use tersecontext.Prelude.Text.{codes}
use tersecontext.Normalizer.Models.{
  EventType, call, return, exception, TraceEvent, EffectKind, db_read, db_write, cache_read,
  cache_set, http_out, fs_write, SideEffect,
}
use tersecontext.Normalizer.Effects.{
  is_db_write, classify, kind_eq, detail_of, seen_in, Scan, add, add_kind, scan_event, scan,
  classify_side_effects,
}

-- Whatever the name goes on with behind `execute_`, it counts as a write to the database:
-- `execute_workflow` too.
pub is_db_write-execute_prefix : (s : List ℕ) → is_db_write (codes "execute_" ++ s) ≡ true
unfolding is_db_write
is_db_write-execute_prefix s = refl

abbrev pub effects_of : Option EffectKind → String → ℕ → List SideEffect
effects_of none d depth = []
effects_of (some k) d depth = record { kind = k; detail = d; hop_depth = depth } ∷ []

-- What one event adds, at a number of open calls, and the number of open calls behind it.
module _ {F : Type 0} (lower : String → List ℕ) where
  abbrev pub effect_of : EventType → TraceEvent F → ℕ → List SideEffect
  effect_of call ev depth = effects_of (classify (lower ev.fn)) (detail_of ev.fn) depth
  effect_of _ ev depth = []

abbrev pub depth_after : EventType → ℕ → ℕ
depth_after call depth = suc depth
depth_after return depth = depth - 1
depth_after exception depth = depth - 1
depth_after _ depth = depth

-- The side effect of each call with its depth, repeated ones included.
module _ {F : Type 0} (lower : String → List ℕ) where
  abbrev pub occurring : ℕ → List (TraceEvent F) → List SideEffect
  occurring depth [] = []
  occurring depth (ev ∷ events) =
      effect_of lower ev.type ev depth ++ occurring (depth_after ev.type depth) events

-- The first side effect of each kind and detail that is not among those already seen.
abbrev pub first_of_each : List (EffectKind × String) → List SideEffect → List SideEffect
first_of_each seen [] = []
first_of_each seen (e ∷ es) =
    let old = first_of_each seen es in
    let new = e ∷ first_of_each (seen ++ (e.kind, e.detail) ∷ []) es in
    if seen_in e.kind e.detail seen then old else new

-- What is still to come, `rest`, is looked at behind one addition.
add_kind-first_of_each :
    (o : Option EffectKind) (d : String) (depth : ℕ) (s : Scan) (rest : List SideEffect)
    → (add_kind o d depth s).effects ++ first_of_each (add_kind o d depth s).seen rest
      ≡ s.effects ++ first_of_each s.seen (effects_of o d depth ++ rest)
unfolding add
add_kind-first_of_each none d depth s rest = refl
add_kind-first_of_each (some k) d depth s rest = elim (Bool-cases (seen_in k d s.seen)) [
  | inl old ↦ rw old
  | inr new ↦ rw new (append_assoc s.effects _ _)
]

call_depth-add_kind :
    (o : Option EffectKind) (d : String) (depth : ℕ) (s : Scan)
    → (add_kind o d depth s).call_depth ≡ s.call_depth
unfolding add
call_depth-add_kind none d depth s = refl
call_depth-add_kind (some k) d depth s = ground arith

module _ {F : Type 0} (lower : String → List ℕ) where
  scan_event-first_of_each :
      (t : EventType) (ev : TraceEvent F) (s : Scan) (rest : List SideEffect)
      → (scan_event lower t ev s).effects ++ first_of_each (scan_event lower t ev s).seen rest
        ≡ s.effects ++ first_of_each s.seen (effect_of lower t ev s.call_depth ++ rest)
  unfolding scan_event
  scan_event-first_of_each call ev s rest =
      add_kind-first_of_each (classify (lower ev.fn)) (detail_of ev.fn) s.call_depth
        (record s { call_depth = suc s.call_depth }) rest
  scan_event-first_of_each _ ev s rest = refl

  call_depth-scan_event :
      (t : EventType) (ev : TraceEvent F) (s : Scan)
      → (scan_event lower t ev s).call_depth ≡ depth_after t s.call_depth
  unfolding scan_event
  call_depth-scan_event call ev s = call_depth-add_kind (classify (lower ev.fn)) _ _ _
  call_depth-scan_event return ev s = omega arith
  call_depth-scan_event exception ev s = omega arith
  call_depth-scan_event _ ev s = refl

  scan-first_of_each :
      (events : List (TraceEvent F)) (s : Scan)
      → (scan lower events s).effects
        ≡ s.effects ++ first_of_each s.seen (occurring lower s.call_depth events)
  unfolding scan
  scan-first_of_each [] s = sym (append-nil s.effects)
  scan-first_of_each (ev ∷ events) s =
      let s' = scan_event lower ev.type ev s in
      scan-first_of_each events s'
      ∙ ap (λ (d : ℕ). s'.effects ++ first_of_each s'.seen (occurring lower d events))
          (call_depth-scan_event ev.type ev s)
      ∙ scan_event-first_of_each ev.type ev s
          (occurring lower (depth_after ev.type s.call_depth) events)

  -- The side effects of a trace are those of its calls in order, each with the number of calls open
  -- at it, less every one whose kind and function appeared before.
  pub classify_side_effects-first_of_each :
      (events : List (TraceEvent F))
      → classify_side_effects lower events ≡ first_of_each [] (occurring lower 0 events)
  unfolding classify_side_effects
  classify_side_effects-first_of_each events =
      scan-first_of_each events (record { effects = []; seen = []; call_depth = 0 })

abbrev pub key_of : SideEffect → EffectKind × String
key_of e = (e.kind, e.detail)

-- No side effect has the kind and the detail of one before it.
abbrev pub IsDistinct : List SideEffect → Type 0
IsDistinct [] = Unit
IsDistinct (e ∷ es) = (seen_in e.kind e.detail (map key_of es) ≡ false) × IsDistinct es

seen_in-append :
    (k : EffectKind) (d : String) (xs ys : List (EffectKind × String))
    → seen_in k d (xs ++ ys) ≡ (seen_in k d xs || seen_in k d ys)
seen_in-append k d [] ys = refl
seen_in-append k d ((j, e) ∷ xs) ys = ground (arith, seen_in-append k d xs ys)

kind_eq_refl : (k : EffectKind) → kind_eq k k ≡ true
unfolding kind_eq
kind_eq_refl db_read = refl
kind_eq_refl db_write = refl
kind_eq_refl cache_read = refl
kind_eq_refl cache_set = refl
kind_eq_refl http_out = refl
kind_eq_refl fs_write = refl

kind_eq_sound : (j k : EffectKind) → kind_eq j k ≡ true → j ≡ k
unfolding kind_eq
kind_eq_sound j k h = ground arith

seen_in-first_of_each :
    (k : EffectKind) (d : String) (seen : List (EffectKind × String)) (es : List SideEffect)
    → (seen_in k d (map key_of (first_of_each seen es)) || seen_in k d seen)
      ≡ (seen_in k d (map key_of es) || seen_in k d seen)
seen_in-first_of_each k d seen [] = refl
seen_in-first_of_each k d seen (e ∷ es) = ground (
  arith,
  seen_in-first_of_each k d seen es,
  seen_in-first_of_each k d (seen ++ (e.kind, e.detail) ∷ []) es,
  seen_in-append k d seen ((e.kind, e.detail) ∷ []),
  kind_eq_sound e.kind k,
  eq_iff e.detail d,
)

first_of_each-fresh :
    (k : EffectKind) (d : String) (seen : List (EffectKind × String)) (es : List SideEffect)
    → seen_in k d seen ≡ true
    → seen_in k d (map key_of (first_of_each seen es)) ≡ false
first_of_each-fresh k d seen [] h = refl
first_of_each-fresh k d seen (e ∷ es) h = ground (
  arith,
  first_of_each-fresh k d seen es h,
  first_of_each-fresh k d (seen ++ (e.kind, e.detail) ∷ []) es,
  seen_in-append k d seen ((e.kind, e.detail) ∷ []),
  kind_eq_sound e.kind k,
  eq_iff e.detail d,
)

first_of_each-IsDistinct :
    (seen : List (EffectKind × String)) (es : List SideEffect) → IsDistinct (first_of_each seen es)
first_of_each-IsDistinct seen [] = tt
first_of_each-IsDistinct seen (e ∷ es) = elim (Bool-cases (seen_in e.kind e.detail seen)) [
  | inl old ↦ rw old (first_of_each-IsDistinct seen es)
  | inr new ↦
      let seen' = seen ++ (e.kind, e.detail) ∷ [] in
      let now : seen_in e.kind e.detail seen' ≡ true = ground (
        arith,
        seen_in-append e.kind e.detail seen ((e.kind, e.detail) ∷ []),
        kind_eq_refl e.kind,
        eq_iff e.detail e.detail,
      ) in
      rw new (first_of_each-fresh e.kind e.detail seen' es now, first_of_each-IsDistinct seen' es)
]

module _ {F : Type 0} (lower : String → List ℕ) where
  pub classify_side_effects-IsDistinct :
      (events : List (TraceEvent F)) → IsDistinct (classify_side_effects lower events)
  classify_side_effects-IsDistinct events =
      rw (classify_side_effects-first_of_each lower events)
        (first_of_each-IsDistinct [] (occurring lower 0 events))

  -- No side effect is listed twice, and a kind and a detail are listed exactly if some call of the trace has them.
  pub classify_side_effects_exact :
      (events : List (TraceEvent F)) (k : EffectKind) (d : String)
      → IsDistinct (classify_side_effects lower events)
        × (seen_in k d (map key_of (classify_side_effects lower events))
            ≡ seen_in k d (map key_of (occurring lower 0 events)))
  classify_side_effects_exact events k d = rw (classify_side_effects-first_of_each lower events) (
    first_of_each-IsDistinct [] (occurring lower 0 events),
    ground (arith, seen_in-first_of_each k d [] (occurring lower 0 events)),
  )
