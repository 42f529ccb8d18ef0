-- ===== src/Instrumenter/Sessions.antt =====
-- What every interleaving of requests and evictions keeps of the pool of sessions.
use tersecontext.Prelude.{
  ℕ, suc, ◌+◌, ◌-◌, ◌≤◌, ◌<◌, String, Bool, true, false, not, ◌&&◌, ◌||◌, Option, none, some, List,
  [], ◌∷◌, ◌==◌, ◌≡◌, refl, eq_iff, elem, ltb, ltb→lt, Bool-cases, inl, inr, length, arith,
}
use tersecontext.Prelude.Dict
use tersecontext.Prelude.Dict.{Dict}
use tersecontext.Instrumenter.{
  InstrumentRequest, Pool, max_sessions, without, is_incomplete, session_of, check, store, stamp,
  forget, expired, forget_all, evict, Step, checked, stored, stamped, session_popped, time_popped,
  run_counted, Reach, here, next,
}

module _ {V : Type 0} where
  length-put-le : (k : String) (v : V) (d : Dict V) → length (Dict.put k v d) ≤ suc (length d)
  unfolding Dict.put
  length-put-le k v [] = omega arith
  length-put-le k v ((j, w) ∷ d) = ground (arith, length-put-le k v d)

  length-remove-le : (k : String) (d : Dict V) → length (Dict.remove k d) ≤ length d
  unfolding Dict.remove
  length-remove-le k [] = omega arith
  length-remove-le k ((j, w) ∷ d) = ground (arith, length-remove-le k d)

  abbrev pub is_some : Option V → Bool
  is_some none = false
  is_some (some v) = true

elem-without :
    (k j : String) (js : List String) → elem j (without k js) ≡ (elem j js && not (k == j))
elem-without k j [] = refl
elem-without k j (i ∷ js) = ground (arith, elem-without k j js, eq_iff i k, eq_iff i j, eq_iff k j)

-- A session has a time, or is about to get one.
abbrev pub is_timed : String → Pool → Bool
is_timed sid p = is_some (Dict.get sid p.session_created_at) || elem sid p.unstamped

-- The sessions and the requests that are about to store one exceed MAX_SESSIONS by less than the number of
-- threads, and every session has its time or is about to get it.
pub record IsPool (threads : ℕ) (p : Pool) : Type 0 where
  pub bounded : length p.sessions + p.admitted < max_sessions + threads
  pub timed : (sid : String) → is_some (Dict.get sid p.sessions) ≡ true → is_timed sid p ≡ true

module _ (args : List String) (threads : ℕ) where
  check-IsPool :
      (req : InstrumentRequest) (p : Pool)
      → p.admitted < threads
      → IsPool threads p
      → IsPool threads (check args req p).1
  unfolding check
  check-IsPool req p free h = elim (Bool-cases (is_incomplete req)) [
    | inl bad ↦ rw bad h
    | inr good ↦ elim (Bool-cases (ltb (length p.sessions) max_sessions)) [
      | inl room ↦
          rw (good, room)
            (record {
              bounded = omega (arith, free, ltb→lt (length p.sessions) max_sessions room);
              timed = h.timed;
            })
      | inr full ↦ rw (good, full) h
    ]
  ]

  store-IsPool :
      (req : InstrumentRequest) (sid : String) (made : Option String) (p : Pool)
      → 1 ≤ p.admitted
      → IsPool threads p
      → IsPool threads (store args req sid made p).1
  unfolding store
  store-IsPool req sid none p some_ h = record {
    bounded = omega (arith, some_, h.bounded);
    timed = h.timed;
  }
  store-IsPool req sid (some td) p some_ h =
      let session = session_of args req sid td in
      record {
        bounded = omega (arith, some_, h.bounded, length-put-le sid session p.sessions);
        timed = λ j e. ground (arith, e, h.timed j, Dict.get-put sid j session p.sessions);
      }

  stamp-IsPool :
      (sid : String) (now : ℕ) (p : Pool)
      → IsPool threads p
      → IsPool threads (stamp args sid now p).1
  unfolding stamp
  stamp-IsPool sid now p h = record {
    bounded = h.bounded;
    timed = λ j e. ground (
      arith,
      e,
      h.timed j,
      Dict.get-put sid j now p.session_created_at,
      elem-without sid j p.unstamped,
    );
  }

  Step-IsPool : {p q : Pool} → Step args threads p q → IsPool threads p → IsPool threads q
  Step-IsPool (checked req p free) h = check-IsPool req p free h
  Step-IsPool (stored req sid made p some_) h = store-IsPool req sid made p some_ h
  Step-IsPool (stamped sid now p e) h = stamp-IsPool sid now p h
  Step-IsPool (session_popped sid p) h = record {
    bounded = omega (arith, h.bounded, length-remove-le sid p.sessions);
    timed = λ j e. ground (arith, e, h.timed j, Dict.get-remove sid j p.sessions);
  }
  Step-IsPool (time_popped sid p gone) h = record {
    bounded = h.bounded;
    timed = λ j e.
        ground
          (arith, e, gone, eq_iff sid j, h.timed j, Dict.get-remove sid j p.session_created_at);
  }
  Step-IsPool (run_counted p) h = record { bounded = h.bounded; timed = h.timed }

  -- However the accesses of the endpoints' threads and of the eviction interleave, from a pool in which
  -- it holds: the open sessions, with the requests that are about to store one, exceed MAX_SESSIONS by
  -- less than the number of threads, and every session has its time of creation, so that the eviction
  -- sees it, or its request is about to set it.
  pub Reach-IsPool : {p q : Pool} → Reach args threads p q → IsPool threads p → IsPool threads q
  Reach-IsPool here h = h
  Reach-IsPool (next r st) h = Step-IsPool st (Reach-IsPool r h)

get-forget_all :
    (sid : String) (sids : List String) (p : Pool)
    → Dict.get sid p.sessions ≡ none
    → Dict.get sid (forget_all sids p).sessions ≡ none
unfolding forget_all
get-forget_all sid [] p h = h
get-forget_all sid (s ∷ sids) p h =
    get-forget_all sid sids (forget s p) (ground (arith, Dict.get-remove s sid p.sessions, h))

elem-forget_all :
    (sid : String) (sids : List String) (p : Pool)
    → elem sid sids ≡ true
    → Dict.get sid (forget_all sids p).sessions ≡ none
unfolding forget_all
elem-forget_all sid [] p h = ground (arith, h)
elem-forget_all sid (s ∷ sids) p h = elim (Bool-cases (s == sid)) [
  | inl e ↦
      get-forget_all sid sids (forget s p) (ground (arith, Dict.get-remove s sid p.sessions, e))
  | inr e ↦ elem-forget_all sid sids (forget s p) (ground (arith, h, e))
]

elem-expired :
    (sid : String) (now t : ℕ) (d : Dict ℕ)
    → Dict.get sid d ≡ some t
    → 60 < now - t
    → elem sid (expired now d) ≡ true
unfolding expired Dict.get
elem-expired sid now t [] h old = ground (arith, h)
elem-expired sid now t ((j, u) ∷ d) h old =
    ground (arith, h, old, elem-expired sid now t d, eq_iff j sid)

-- An eviction removes every session that is older than a minute, whether or not its run raised before.
pub evict-removes :
    (sid : String) (now t : ℕ) (p : Pool)
    → Dict.get sid p.session_created_at ≡ some t
    → 60 < now - t
    → Dict.get sid (evict now p).sessions ≡ none
unfolding evict
evict-removes sid now t p h old =
    elem-forget_all sid (expired now p.session_created_at) p
      (elem-expired sid now t p.session_created_at h old)
