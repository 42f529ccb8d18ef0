-- ===== src/SpecGenerator/Tables.antt =====
-- The table that a statement names.
use tersecontext.Prelude.{String, Bool, true, false, ◌≡◌, some, List, ◌∷◌, ◌++◌, ◌==◌, All}
use tersecontext.SpecGenerator.Touched.{Py, candidate}

module _ {F : Type 0} (py : Py F) where
  -- A word that is a keyword, in any case and with any of the stripped characters around it.
  abbrev pub is_keyword : String → String → Bool
  is_keyword kw word = py.strip (py.upper word) == kw

  abbrev pub HasNo : String → List String → Type 0
  HasNo kw = All (λ word. is_keyword kw word ≡ false)

  -- The words of a statement name a table: behind its first FROM; without FROM, behind its first INTO;
  -- or, without either, behind an UPDATE at the beginning. The word there is no keyword of SQL.
  pub data Names : List String → String → Type 0 where
    from_names :
        (before : List String) (kw word : String) (after : List String) (table : String)
        → HasNo "FROM" before
        → is_keyword "FROM" kw ≡ true
        → candidate py (some word) ≡ some table
        → Names (before ++ kw ∷ word ∷ after) table
    into_names :
        (before : List String) (kw word : String) (after : List String) (table : String)
        → HasNo "FROM" (before ++ kw ∷ word ∷ after)
        → HasNo "INTO" before
        → is_keyword "INTO" kw ≡ true
        → candidate py (some word) ≡ some table
        → Names (before ++ kw ∷ word ∷ after) table
    update_names :
        (kw word : String) (after : List String) (table : String)
        → HasNo "FROM" (kw ∷ word ∷ after)
        → HasNo "INTO" (kw ∷ word ∷ after)
        → is_keyword "UPDATE" kw ≡ true
        → candidate py (some word) ≡ some table
        → Names (kw ∷ word ∷ after) table
