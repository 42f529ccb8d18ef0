-- ===== src/Parser/Consumer/Published.antt =====
-- What the parser publishes, and what it acknowledges.
use tersecontext.Prelude.{
  ℕ, suc, String, Bool, true, ◌≡◌, refl, Option, List, [], ◌∷◌, ◌++◌, All, All-append, append_assoc,
  append-nil, arith, Bool-cases, inl, inr,
}
use tersecontext.Prelude.Effects.{
  Result, ok, raise, Action, for_each, then_keeps, try_keeps, try_except, handled, continue, ◌>>=◌,
  ◌>>◌,
}
use tersecontext.Prelude.Results.{Holds}
use tersecontext.Parser.Models.{ParsedFileEvent}
use tersecontext.Parser.Consumer.{
  World, Message, Service, output, lift, log_error, command, xadd, xack, process, handle, consume,
}
use tersecontext.Parser.Consumer.Sound.{IsSoundEvent, output-IsSoundEvent}

-- All that has been published is sound.
abbrev pub IsSoundService : Service → Type 0
IsSoundService s = All IsSoundEvent s.published

module _ (world : World) (is_up : ℕ → Bool) where
  xadd-keeps :
      (out : ParsedFileEvent) (s : Service)
      → IsSoundEvent out
      → IsSoundService s
      → IsSoundService (xadd world is_up out s).1
  unfolding xadd command
  xadd-keeps out s ho h = elim (Bool-cases (is_up s.commands)) [
    | inl e ↦ rw e (All-append IsSoundEvent s.published (out ∷ []) h (ho, tt))
    | inr e ↦ rw e h
  ]

  xack-keeps :
      (msg_id : String) (s : Service)
      → IsSoundService s
      → IsSoundService (xack world is_up msg_id s).1
  unfolding xack command
  xack-keeps msg_id s h = elim (Bool-cases (is_up s.commands)) [ inl e ↦ rw e h | inr e ↦ rw e h ]

  emit-keeps :
      (r : Result ParsedFileEvent) (s : Service)
      → Holds IsSoundEvent r
      → IsSoundService s
      → IsSoundService ((lift world r >>= xadd world is_up) s).1
  emit-keeps (ok out) s ho h = xadd-keeps out s ho h
  emit-keeps (raise e) s ho h = h

  process-keeps :
      (raw : Option String) (s : Service)
      → IsSoundService s
      → IsSoundService (process world is_up raw s).1
  unfolding process
  process-keeps raw s h = emit-keeps (output world raw) s (output-IsSoundEvent world raw) h

  handle-keeps :
      (m : Message) (s : Service) → IsSoundService s → IsSoundService (handle world is_up m s).1
  unfolding handle
  handle-keeps m s h =
      try_keeps IsSoundService (process world is_up m.1 >> xack world is_up m.0) (log_error world)
        (then_keeps IsSoundService (process world is_up m.1) (xack world is_up m.0)
          (process-keeps m.1) (xack-keeps m.0))
        (λ e s k. k) s h

  -- Whatever messages come, and whenever Redis fails: in each parsed file that the parser publishes,
  -- whatever part of the file the event asks for, every edge starts at one of the published nodes, no
  -- edge starts and ends at the same node, and no edge stands twice, where that holds of the files
  -- published before. For a modified file the end of an edge need not be published.
  pub consume-IsSound :
      (messages : List Message) (s : Service)
      → IsSoundService s
      → IsSoundService (consume world is_up messages s).1
  unfolding consume
  consume-IsSound [] s h = h
  consume-IsSound (m ∷ messages) s h =
      then_keeps IsSoundService (handle world is_up m) (for_each (handle world is_up) messages)
        (handle-keeps m) (consume-IsSound messages) s h

-- The messages that can be processed, with what they lead to.
abbrev pub with_output :
    String
    → Result ParsedFileEvent
    → List (String × ParsedFileEvent)
    → List (String × ParsedFileEvent)
with_output msg_id (ok out) rest = (msg_id, out) ∷ rest
with_output msg_id (raise e) rest = rest

abbrev pub processable : World → List Message → List (String × ParsedFileEvent)
processable world [] = []
processable world (m ∷ messages) = with_output m.0 (output world m.1) (processable world messages)

abbrev pub firsts : {A B : Type 0} → List (A × B) → List A
firsts [] = []
firsts (p ∷ ps) = p.0 ∷ firsts ps

abbrev pub seconds : {A B : Type 0} → List (A × B) → List B
seconds [] = []
seconds (p ∷ ps) = p.1 ∷ seconds ps

module _ (world : World) (is_up : ℕ → Bool) (up : (n : ℕ) → is_up n ≡ true) where
  -- What a message leads to, and the message, while Redis is up.
  abbrev after : String → Result ParsedFileEvent → Service → Service
  after msg_id r s =
      (try_except ((lift world r >>= xadd world is_up) >> xack world is_up msg_id) (log_error world)
        s).1

  after-logs :
      (msg_id : String) (r : Result ParsedFileEvent) (s : Service)
      → ((after msg_id r s).published ≡ s.published ++ seconds (with_output msg_id r []))
        × ((after msg_id r s).acked ≡ s.acked ++ firsts (with_output msg_id r []))
  unfolding xadd xack command
  after-logs msg_id (ok out) s = ground (arith, up s.commands, up (suc s.commands))
  after-logs msg_id (raise e) s =
      (ground (arith, append-nil s.published), ground (arith, append-nil s.acked))

  handle-after :
      (m : Message) (s : Service) → (handle world is_up m s).1 ≡ after m.0 (output world m.1) s
  unfolding handle process
  handle-after m s = refl

handled_ok :
    (world : World) (r : Result (Unit {0})) (s : Service)
    → (handled r (log_error world) s).0 ≡ ok tt
handled_ok world (ok tt) s = refl
handled_ok world (raise e) s = refl

continue_ok :
    (r : Result (Unit {0})) (n : Action Service (Unit {0})) (s : Service)
    → r ≡ ok tt
    → continue r (λ _. n) s ≡ n s
continue_ok (ok tt) n s e = refl
continue_ok (raise x) n s e = ground arith

seconds-with_output :
    (msg_id : String) (r : Result ParsedFileEvent) (rest : List (String × ParsedFileEvent))
    → seconds (with_output msg_id r rest) ≡ seconds (with_output msg_id r []) ++ seconds rest
seconds-with_output msg_id (ok out) rest = refl
seconds-with_output msg_id (raise e) rest = refl

firsts-with_output :
    (msg_id : String) (r : Result ParsedFileEvent) (rest : List (String × ParsedFileEvent))
    → firsts (with_output msg_id r rest) ≡ firsts (with_output msg_id r []) ++ firsts rest
firsts-with_output msg_id (ok out) rest = refl
firsts-with_output msg_id (raise e) rest = refl

module _ (world : World) (is_up : ℕ → Bool) where
  -- No exception leaves the loop.
  consume-step :
      (m : Message) (messages : List Message) (s : Service)
      → consume world is_up (m ∷ messages) s
        ≡ consume world is_up messages (handle world is_up m s).1
  unfolding consume handle
  consume-step m messages s =
      continue_ok (handle world is_up m s).0 (for_each (handle world is_up) messages)
        (handle world is_up m s).1 (handled_ok world _ _)

  consume-nil : (s : Service) → consume world is_up [] s ≡ (ok tt, s)
  unfolding consume
  consume-nil s = refl

  -- While Redis is up, the parser publishes exactly one parsed file for each message that can be
  -- processed, in the order of the messages, and acknowledges exactly these; a message that cannot be
  -- processed is neither published nor acknowledged, and hinders none of the others.
  pub consume-logs :
      (up : (n : ℕ) → is_up n ≡ true) (messages : List Message) (s : Service)
      → ((consume world is_up messages s).1.published
          ≡ s.published ++ seconds (processable world messages))
        × ((consume world is_up messages s).1.acked
            ≡ s.acked ++ firsts (processable world messages))
  consume-logs up [] s =
      rw (consume-nil s)
        (ground (arith, append-nil s.published), ground (arith, append-nil s.acked))
  consume-logs up (m ∷ messages) s =
      let r = output world m.1 in
      let rest = processable world messages in
      let here = after-logs world is_up up m.0 r s in
      let later = consume-logs up messages (handle world is_up m s).1 in
      let step = consume-step m messages s in
      let shown = handle-after world is_up up m s in
      (
        cc (
          step,
          shown,
          here.0,
          later.0,
          seconds-with_output m.0 r rest,
          append_assoc s.published (seconds (with_output m.0 r [])) (seconds rest),
        ),
        cc (
          step,
          shown,
          here.1,
          later.1,
          firsts-with_output m.0 r rest,
          append_assoc s.acked (firsts (with_output m.0 r [])) (firsts rest),
        ),
      )
