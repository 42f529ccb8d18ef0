-- ===== src/SpecGenerator/Touched.antt =====
-- services/spec-generator/app/renderer.py: the tables and services that the side effects of a path
-- touch. Python's methods of texts and formats of numbers are parameters.
use tersecontext.Prelude.{
  ℕ, String, Bool, true, false, not, ◌&&◌, Option, none, some, List, [], ◌∷◌, ◌++◌, ◌==◌, elem, ltb,
  if◌then◌else◌,
}
use tersecontext.Prelude.Dict
use tersecontext.Prelude.Dict.{Dict}
use tersecontext.Normalizer.Models.{
  EffectKind, db_read, db_write, cache_read, cache_set, http_out, fs_write, SideEffect,
}

-- `s.split()`, `s.upper()`, `s.strip("(,);")`, the group of `re.search(r"https?://([^/\s]+)", s)`,
-- `str(n)`, `f"{x:.2f}"`, `f"{x:.1f}"` and `f"{round(x * 100)}%"`.
pub record Py (F : Type 0) : Type 0 where
  pub split : String → List String
  pub upper : String → String
  pub strip : String → String
  pub search_host : String → Option String
  pub str : ℕ → String
  pub two_places : F → String
  pub one_place : F → String
  pub percentage : F → String

abbrev pub sql_keywords : List String
sql_keywords =
    "SELECT" ∷ "INSERT" ∷ "UPDATE" ∷ "DELETE" ∷ "FROM" ∷ "INTO" ∷ "WHERE" ∷ "SET" ∷ "VALUES" ∷ []

abbrev pub or_else : Option String → Option String → Option String
or_else (some s) b = some s
or_else none b = b

abbrev pub or_text : Option String → String → String
or_text (some s) b = s
or_text none b = b

abbrev pub head : List String → Option String
head [] = none
head (s ∷ ss) = some s

-- `parts[-1] if parts else detail`
abbrev pub last_or : String → List String → String
last_or detail [] = detail
last_or detail (s ∷ ss) = last_or s ss

module _ {F : Type 0} (py : Py F) where
  -- A candidate for a table: no empty text and no keyword.
  abbrev pub candidate : Option String → Option String
  candidate none = none
  candidate (some word) =
      let clean = py.strip word in
      if not (clean == "") && not (elem (py.upper clean) sql_keywords) then some clean else none

  -- The word behind the first `kw`.
  abbrev pub word_after : String → List String → Option String
  word_after kw [] = none
  word_after kw (word ∷ words) =
      let later = word_after kw words in
      if py.strip (py.upper word) == kw then head words else later

  abbrev pub updated_table : List String → Option String
  updated_table [] = none
  updated_table (word ∷ words) =
      if py.strip (py.upper word) == "UPDATE" then candidate (head words) else none

  abbrev pub first_name : List String → Option String
  first_name [] = none
  first_name (word ∷ words) = or_else (candidate (some word)) (first_name words)

  -- `re.split(r"\s+", detail.strip())` has an empty text where `split` has nothing.
  unfoldable pub extract_table : String → String
  extract_table detail =
      let words = py.split detail in
      or_text
        (or_else (candidate (word_after "FROM" words)) (
          or_else (candidate (word_after "INTO" words))
            (or_else (updated_table words) (or_else (first_name words) (head words)))))
        detail

  unfoldable pub extract_service : String → String
  extract_service detail = or_text (py.search_host detail) (last_or detail (py.split detail))

-- The tables with their marks, and the services.
pub record Impact : Type 0 where
  pub tables : Dict (List String)
  pub services : List String

abbrev pub no_impact : Impact
no_impact = record { tables = []; services = [] }

-- `xs.append(x)` unless it is there
abbrev pub add_new : String → List String → List String
add_new x xs = if elem x xs then xs else xs ++ x ∷ []

abbrev pub or_nil : Option (List String) → List String
or_nil none = []
or_nil (some marks) = marks

abbrev pub marks_of : String → Dict (List String) → List String
marks_of t tables = or_nil (Dict.get t tables)

-- `tables.setdefault(t, [])` and the append
unfoldable pub mark_table : String → String → Dict (List String) → Dict (List String)
mark_table mark t tables = Dict.put t (add_new mark (marks_of t tables)) tables

module _ {F : Type 0} (py : Py F) where
  unfoldable pub add_effect : EffectKind → String → Impact → Impact
  unfolding mark_table extract_table extract_service
  add_effect db_read detail i = record i {
    tables = mark_table "r" (extract_table py detail) i.tables;
  }
  add_effect db_write detail i = record i {
    tables = mark_table "w" (extract_table py detail) i.tables;
  }
  add_effect http_out detail i = record i {
    services = add_new (extract_service py detail) i.services;
  }
  add_effect cache_read detail i = i
  add_effect cache_set detail i = i
  add_effect fs_write detail i = i

  abbrev pub impact : List SideEffect → Impact → Impact
  impact [] i = i
  impact (e ∷ effects) i = impact effects (add_effect e.kind e.detail i)

  abbrev pub is_http_out : EffectKind → Bool
  is_http_out http_out = true
  is_http_out _ = false

  -- `cond_effects`
  abbrev pub conditional : List SideEffect → List String
  conditional [] = []
  conditional (e ∷ effects) =
      let rest = conditional effects in
      if is_http_out e.kind && ltb 1 e.hop_depth then extract_service py e.detail ∷ rest else rest
