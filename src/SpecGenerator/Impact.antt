-- ===== src/SpecGenerator/Impact.antt =====
-- The marks of the tables under CHANGE_IMPACT.
use tersecontext.Prelude.{String, Bool, false, ◌&&◌, ◌||◌, List, [], ◌∷◌, ◌==◌, IsDistinct, All}
use tersecontext.Prelude.Dict
use tersecontext.Prelude.Dict.{Dict}
use tersecontext.Normalizer.Models.{EffectKind, db_read, db_write, http_out, SideEffect}
use tersecontext.SpecGenerator.Touched.{Py, extract_table, extract_service, Impact}

abbrev pub HasMarksOnce : String × List String → Type 0
HasMarksOnce (t, marks) = IsDistinct marks

module _ {F : Type 0} (py : Py F) where
  -- An effect reads or writes a table.
  abbrev pub touches : String → String → EffectKind → String → Bool
  touches t m db_read detail = extract_table py detail == t && "r" == m
  touches t m db_write detail = extract_table py detail == t && "w" == m
  touches t m _ detail = false

  abbrev pub calls : String → EffectKind → String → Bool
  calls svc http_out detail = extract_service py detail == svc
  calls svc _ detail = false

  abbrev pub is_touched : String → String → List SideEffect → Bool
  is_touched t m [] = false
  is_touched t m (e ∷ effects) = touches t m e.kind e.detail || is_touched t m effects

  abbrev pub is_called : String → List SideEffect → Bool
  is_called svc [] = false
  is_called svc (e ∷ effects) = calls svc e.kind e.detail || is_called svc effects

  -- No table, no mark of a table and no service stands twice.
  pub record IsTidy (i : Impact) : Type 0 where
    pub tables_once : IsDistinct (Dict.keys i.tables)
    pub marks_once : All HasMarksOnce i.tables
    pub services_once : IsDistinct i.services
