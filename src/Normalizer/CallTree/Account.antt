-- ===== src/Normalizer/CallTree/Account.antt =====
-- `_reconstruct_sync` on every trace, also a broken one: what becomes of each call.
use tersecontext.Prelude.{
  ℕ, ◌+◌, ◌≤◌, ◌<◌, ◌≡◌, List, [], ◌∷◌, refl, ap, subst, length, length-append, All, All-append,
  arith,
}
use native.Mathlib.Nat.{zero-add}
use tersecontext.Prelude.Float.{Float}
use tersecontext.Normalizer.Models.{
  EventType, call, return, exception, async_call, async_return, TraceEvent, CallNode,
}
use tersecontext.Normalizer.CallTree.{Walk, OpenCall, start, close, pop, visit, walk}

abbrev is_call : EventType → ℕ
is_call call = 1
is_call _ = 0

-- The number of call events of a trace.
abbrev pub calls : {F : Type 0} → List (TraceEvent F) → ℕ
calls [] = 0
calls (ev ∷ events) = is_call ev.type + calls events

module _ {F : Type 0} ⦃float : Float F⦄ where
  -- The depth is the number of open calls, and each open call stands at its place in the stack.
  abbrev pub IsStack : List (OpenCall F) → Type 0
  IsStack [] = Unit
  IsStack (c ∷ stack) = (c.call_depth ≡ length stack) × IsStack stack

  pub record IsSound (w : Walk F) (n : ℕ) : Type 0 where
    pub depth_lem : w.depth ≡ length w.stack
    pub count : length w.nodes + length w.stack ≡ n
    pub stacked : IsStack w.stack
    pub hops : All (λ (c : CallNode F). c.hop < n) w.nodes

  All-weaken :
      (n m : ℕ) (ns : List (CallNode F))
      → n ≤ m
      → All (λ (c : CallNode F). c.hop < n) ns
      → All (λ (c : CallNode F). c.hop < m) ns
  All-weaken n m [] h a = tt
  All-weaken n m (c ∷ ns) h a = (omega arith, All-weaken n m ns h a.1)

  pop-IsSound :
      (ts : F) (stack : List (OpenCall F)) (w : Walk F) (n : ℕ)
      → w.stack ≡ stack
      → IsSound w n
      → IsSound (pop ts stack w) n
  unfolding pop close
  pop-IsSound ts [] w n e h = h
  pop-IsSound ts (c ∷ stack) w n e h =
      let len = ap length e in
      let st = subst IsStack e h.stacked in
      record {
        depth_lem = omega (arith, h.depth_lem, len);
        count = omega (arith, h.count, len, length-append {0} w.nodes (close c ts ∷ []));
        stacked = st.1;
        hops = All-append _ w.nodes _ h.hops (omega (arith, st.0, h.count, len), tt);
      }

  visit-IsSound :
      (t : EventType) (ev : TraceEvent F) (w : Walk F) (n : ℕ)
      → IsSound w n
      → IsSound (visit t ev w) (is_call t + n)
  unfolding visit
  visit-IsSound call ev w n h = record {
    depth_lem = omega (arith, h.depth_lem);
    count = omega (arith, h.count);
    stacked = (h.depth_lem, h.stacked);
    hops = All-weaken n (1 + n) w.nodes (omega arith) h.hops;
  }
  visit-IsSound return ev w n h = rw zero-add (pop-IsSound ev.timestamp_ms w.stack w n refl h)
  visit-IsSound exception ev w n h = rw zero-add (pop-IsSound ev.timestamp_ms w.stack w n refl h)
  visit-IsSound async_call ev w n h = rw zero-add h
  visit-IsSound async_return ev w n h = rw zero-add h

  walk-IsSound :
      (events : List (TraceEvent F)) (w : Walk F) (n : ℕ)
      → IsSound w n
      → IsSound (walk events w) (calls events + n)
  unfolding walk
  walk-IsSound [] w n h = rw zero-add h
  walk-IsSound (ev ∷ events) w n h =
      let more =
        walk-IsSound events (visit ev.type ev w) (is_call ev.type + n)
          (visit-IsSound ev.type ev w n h) in
      let e : is_call ev.type + calls events + n ≡ calls events + (is_call ev.type + n) =
        omega arith in
      rw e more

  -- On any events, also unbalanced ones: the depth is the number of calls that are still open, every
  -- call is either open or has exactly one node, and every hop is below the number of calls.
  pub walk_account : (events : List (TraceEvent F)) → IsSound (walk events start) (calls events)
  walk_account events =
      let e : calls events ≡ calls events + 0 = omega arith in
      rw e (
        walk-IsSound events start 0
          (record { depth_lem = refl; count = refl; stacked = tt; hops = tt }))
