-- ===== src/Normalizer/Effects.antt =====
-- services/trace-normalizer/app/classifier.py: which side effect the name of a called function stands
-- for, and the list of the distinct side effects of a trace. `lower`, Python's `str.lower` given as
-- code points, rests on the Unicode tables and is a parameter.
pub mod Distinct
use tersecontext.Prelude.{
  ℕ, suc, ◌-◌, max, String, Bool, true, false, ◌||◌, ◌&&◌, Option, none, some, List, [], ◌∷◌, ◌++◌,
  ◌==◌, any, elem, if◌then◌else◌,
}
use tersecontext.Prelude.Text.{
  codes, at_start, anything, somewhere, one_of, sep_then, at_end, word_search,
}
use tersecontext.Normalizer.Models.{
  EventType, call, return, exception, async_call, async_return, TraceEvent, EffectKind, db_read,
  db_write, cache_read, cache_set, http_out, fs_write, SideEffect,
}
use Prim.Native.String.{◌∷◌ as cons}

unfoldable pub is_db_read : List ℕ → Bool
is_db_read = word_search ("fetchall" ∷ "fetchone" ∷ "fetch" ∷ "select" ∷ [])

unfoldable pub is_db_write : List ℕ → Bool
is_db_write =
    word_search ("execute" ∷ "executemany" ∷ "insert" ∷ "update" ∷ "delete" ∷ "commit" ∷ [])

-- `p in fn_lower` for some p
contains_any : List String → List ℕ → Bool
contains_any ws = somewhere (one_of ws anything)

-- `(?:redis|cache)[_\.]w|^w$`
cache_call : String → List ℕ → Bool
cache_call w s =
    somewhere (one_of ("redis" ∷ "cache" ∷ []) (sep_then (one_of (w ∷ []) anything))) s
    || one_of (w ∷ []) at_end s

unfoldable pub is_cache_set : List ℕ → Bool
unfolding contains_any cache_call
is_cache_set s =
    contains_any ("hset" ∷ "rpush" ∷ "lpush" ∷ "zadd" ∷ "setex" ∷ []) s || cache_call "set" s

unfoldable pub is_cache_read : List ℕ → Bool
unfolding contains_any cache_call
is_cache_read s =
    contains_any ("hget" ∷ "lrange" ∷ "zrange" ∷ "smembers" ∷ []) s || cache_call "get" s

unfoldable pub is_http : List ℕ → Bool
unfolding contains_any
is_http s =
    somewhere
      (one_of ("http" ∷ "httpx" ∷ "request" ∷ "requests" ∷ "client" ∷ []) (
        sep_then (
          one_of ("request" ∷ "send" ∷ "get" ∷ "post" ∷ "put" ∷ "patch" ∷ "delete" ∷ []) anything)))
      s
    || contains_any ("_send_request" ∷ []) s

unfoldable pub is_fs_write : List ℕ → Bool
is_fs_write s = word_search ("write" ∷ []) s || word_search ("open" ∷ []) s

-- The ladder of tests on the lowered name.
unfoldable pub classify : List ℕ → Option EffectKind
unfolding is_db_read is_db_write is_cache_set is_cache_read is_http is_fs_write
classify s =
    if is_db_read s
    then some db_read
    else if is_db_write s
    then some db_write
    else if is_cache_set s
    then some cache_set
    else if is_cache_read s
    then some cache_read
    else if is_http s
    then some http_out
    else if is_fs_write s
    then some fs_write
    else none

unfoldable pub kind_eq : EffectKind → EffectKind → Bool
kind_eq db_read db_read = true
kind_eq db_write db_write = true
kind_eq cache_read cache_read = true
kind_eq cache_set cache_set = true
kind_eq http_out http_out = true
kind_eq fs_write fs_write = true
kind_eq _ _ = false

-- `f"fn:{ev.fn}"`
abbrev pub detail_of : String → String
detail_of fn = cons "f" (cons "n" (cons ":" fn))

-- `key in seen`
abbrev pub seen_in : EffectKind → String → List (EffectKind × String) → Bool
seen_in k d [] = false
seen_in k d ((j, e) ∷ seen) = (kind_eq j k && e == d) || seen_in k d seen

pub record Scan : Type 0 where
  pub effects : List SideEffect
  pub seen : List (EffectKind × String)
  pub call_depth : ℕ

-- `_add`
unfoldable pub add : EffectKind → String → ℕ → Scan → Scan
add k d depth s = if seen_in k d s.seen then s else record s {
  effects = s.effects ++ record { kind = k; detail = d; hop_depth = depth } ∷ [];
  seen = s.seen ++ (k, d) ∷ [];
}

abbrev add_kind : Option EffectKind → String → ℕ → Scan → Scan
add_kind none d depth s = s
add_kind (some k) d depth s = add k d depth s

module _ {F : Type 0} (lower : String → List ℕ) where
  unfoldable pub scan_event : EventType → TraceEvent F → Scan → Scan
  unfolding add
  scan_event call ev s =
      add_kind (classify (lower ev.fn)) (detail_of ev.fn) s.call_depth
        (record s { call_depth = suc s.call_depth })
  scan_event return ev s = record s { call_depth = max 0 (s.call_depth - 1) }
  scan_event exception ev s = record s { call_depth = max 0 (s.call_depth - 1) }
  scan_event async_call ev s = s
  scan_event async_return ev s = s

  unfoldable pub scan : List (TraceEvent F) → Scan → Scan
  unfolding scan_event
  scan [] s = s
  scan (ev ∷ events) s = scan events (scan_event ev.type ev s)

  unfoldable pub classify_side_effects : List (TraceEvent F) → List SideEffect
  unfolding scan
  classify_side_effects events =
      (scan events (record { effects = []; seen = []; call_depth = 0 })).effects
