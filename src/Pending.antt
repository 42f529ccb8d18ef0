-- ===== src/Pending.antt =====
-- services/symbol-resolver/app/pending.py: the references of the queue of unresolved imports, and
-- `retry_pending` as a function of the queue: the specification of the pass in which every push works.
-- `resolve` says what becomes of a reference. Resolver has the pass as it runs, with pushes that may fail.
use tersecontext.Prelude.{ℕ, ◌+◌, ◌-◌, String, Bool, ◌||◌, List, [], ◌∷◌, ◌++◌, ltb, if◌then◌else◌}

-- models.py; times are in seconds.
pub record PendingRef : Type 0 where
  pub source_stable_id : String
  pub target_name : String
  pub path_hint : String
  pub edge_type : String
  pub repo : String
  pub attempted_at : ℕ
  pub attempt_count : ℕ

-- An entry of the Redis list: the JSON text of a reference, or a text that is none.
pub data Entry : Type 0 where
  malformed : String → Entry
  ref : PendingRef → Entry

pub data Answer : Type 0 where
  resolved unresolved raised : Answer

abbrev pub pending_ttl : ℕ
pending_ttl = 86400

abbrev pub max_attempts : ℕ
max_attempts = 5

-- `push_pending` on the list of the reference's repository; since nothing else writes the list, every
-- reference in it is of that repository.
abbrev pub push_pending : PendingRef → List Entry → List Entry
push_pending r queue = queue ++ ref r ∷ []

-- `_is_expired`; a clock that has gone back gives no age.
abbrev pub is_expired : ℕ → PendingRef → Bool
is_expired now r = ltb max_attempts r.attempt_count || ltb pending_ttl (now - r.attempted_at)

abbrev pub tried_again : ℕ → PendingRef → PendingRef
tried_again now r = record r { attempt_count = r.attempt_count + 1; attempted_at = now }

module _ (now : ℕ) (resolve : PendingRef → Answer) where
  -- The pass over the entries that were read, and what is queued again.
  unfoldable pub retry_entries : List Entry → List Entry → List Entry
  retry_entries [] queue = queue
  retry_entries (malformed t ∷ entries) queue = retry_entries entries queue
  retry_entries (ref r ∷ entries) queue =
      let next = retry_entries entries queue in
      let requeued = retry_entries entries (push_pending (tried_again now r) queue) in
      if is_expired now r then next else elim (resolve r) [
        | resolved ↦ next
        | unresolved ↦ requeued
        | raised ↦ queue ++ ref r ∷ entries
      ]

  -- The pass over the whole list.
  unfoldable pub retry_pending : List Entry → List Entry
  unfolding retry_entries
  retry_pending entries = retry_entries entries []
