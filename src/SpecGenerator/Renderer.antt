-- ===== src/SpecGenerator/Renderer.antt =====
-- services/spec-generator/app/renderer.py: the bands of confidence and the lines of a text.
use Prim.Native.String.{◌++◌ as ◌<>◌}
use tersecontext.Prelude.{
  ℕ, suc, String, Option, none, some, List, [], ◌∷◌, ◌++◌, ◌==◌, map, elem, ltb, if◌then◌else◌,
}
use tersecontext.Prelude.Dict.{Dict}
use tersecontext.Prelude.Float.{Float}
use tersecontext.Normalizer.Models.{
  EffectKind, db_read, db_write, cache_read, cache_set, http_out, fs_write, SideEffect, Edge,
}
use tersecontext.SpecGenerator.Models.{CallSequenceItem, ExecutionPath}
use tersecontext.SpecGenerator.Touched.{Py, Impact, impact, no_impact, or_text, conditional}

pub data ConfidenceBand : Type 0 where
  high medium low : ConfidenceBand

module _ {F : Type 0} ⦃float : Float F⦄ where
  abbrev pub percent : ℕ → F
  percent n = float.div (float.of_ℕ n) (float.of_ℕ 100)

  unfoldable pub confidence_band : Option F → ConfidenceBand
  confidence_band none = medium
  confidence_band (some c) =
      if float.le (percent 80) c then high else if float.le (percent 40) c then medium else low

abbrev pub band_text : ConfidenceBand → String
band_text high = "HIGH"
band_text medium = "MEDIUM"
band_text low = "LOW"

-- `sep.join(texts)`
abbrev pub join : String → List String → String
join sep [] = ""
join sep (s ∷ []) = s
join sep (s ∷ t ∷ ss) = s <> (sep <> join sep (t ∷ ss))

abbrev pub concat : List String → String
concat [] = ""
concat (s ∷ ss) = s <> concat ss

-- _SIDE_EFFECT_LABELS, which has every type that the model of pydantic admits.
abbrev pub label : EffectKind → String
label db_read = "DB READ"
label db_write = "DB WRITE"
label cache_read = "CACHE READ"
label cache_set = "CACHE SET"
label http_out = "HTTP OUT"
label fs_write = "FS WRITE"

-- `a or b` on texts
abbrev pub text_or : Option String → String → String
text_or none b = b
text_or (some a) b = if a == "" then b else a

abbrev pub display_name : {F : Type 0} → CallSequenceItem F → String
display_name item = text_or item.qualified_name (text_or item.name item.stable_id)

module _ {F : Type 0} ⦃float : Float F⦄ (py : Py F) where
  abbrev pub coverage_or_zero : Option F → F
  coverage_or_zero none = float.of_ℕ 0
  coverage_or_zero (some c) = c

  abbrev pub low_warning : ConfidenceBand → List String
  low_warning low = "⚠ LOW COVERAGE — spec reflects partial observation only" ∷ []
  low_warning _ = []

  -- `f"{entrypoint_name}"`
  abbrev pub name_text : Option String → String
  name_text name = or_text name "None"

  abbrev pub header : ExecutionPath F → Option String → ConfidenceBand → List String
  header path name band =
      concat (
        "PATH "
        ∷ name_text name
        ∷ "  ("
        ∷ band_text band
        ∷ " confidence · "
        ∷ py.percentage (coverage_or_zero path.coverage_pct)
        ∷ " branch coverage)"
        ∷ [])
      ∷ low_warning band

  abbrev pub args_text : Option String → String
  args_text none = ""
  args_text (some args) = if args == "" then "" else "    args: " <> args

  abbrev pub call_line : List String → ℕ → CallSequenceItem F → String
  call_line dynamic_only_targets i item = concat (
      "  "
      ∷ py.str i
      ∷ ".  "
      ∷ display_name item
      ∷ "    "
      ∷ py.two_places item.frequency_ratio
      ∷ "    ~"
      ∷ py.one_place item.avg_ms
      ∷ "ms    "
      ∷ (if elem item.stable_id dynamic_only_targets then "[dynamic-only]" else "[confirmed]")
      ∷ args_text item.args
      ∷ [])

  -- `enumerate(path.call_sequence, start=i)`
  abbrev pub call_lines : List String → ℕ → List (CallSequenceItem F) → List String
  call_lines dynamic_only_targets i [] = []
  call_lines dynamic_only_targets i (item ∷ items) =
      call_line dynamic_only_targets i item ∷ call_lines dynamic_only_targets (suc i) items

  abbrev pub target_of : Edge → String
  target_of e = e.target

  abbrev pub static_line : Edge → String
  static_line e =
      concat ("  ⚠ " ∷ e.target ∷ "   static-only — present in AST but never observed" ∷ [])

  abbrev pub effect_line : SideEffect → String
  effect_line e = concat (
      "  "
      ∷ label e.kind
      ∷ "   "
      ∷ e.detail
      ∷ (if ltb 1 e.hop_depth then "   (conditional)" else "")
      ∷ [])

  abbrev pub effect_lines : List SideEffect → List String
  effect_lines [] = []
  effect_lines (e ∷ effects) = "SIDE_EFFECTS:" ∷ map effect_line (e ∷ effects) ++ "" ∷ []

  abbrev pub table_text : String × List String → String
  table_text (t, marks) = concat (t ∷ " (" ∷ join "/" marks ∷ ")" ∷ [])

  abbrev pub tables_line : Dict (List String) → List String
  tables_line [] = []
  tables_line (t ∷ tables) =
      ("  tables affected    " <> join "  " (map table_text (t ∷ tables))) ∷ []

  abbrev pub service_text : List String → String → String
  service_text cond_effects svc = if elem svc cond_effects then svc <> " (conditional)" else svc

  abbrev pub services_line : List String → List String → List String
  services_line cond_effects [] = []
  services_line cond_effects (svc ∷ services) =
      ("  external services  " <> join "  " (map (service_text cond_effects) (svc ∷ services))) ∷ []

  -- Nothing for no line.
  abbrev pub under_impact : List String → List String
  under_impact [] = []
  under_impact (line ∷ lines) = "CHANGE_IMPACT:" ∷ line ∷ lines

  abbrev pub impact_lines : List SideEffect → Impact → List String
  impact_lines effects i =
      under_impact (tables_line i.tables ++ services_line (conditional py effects) i.services)

  abbrev pub lines : ExecutionPath F → Option String → ConfidenceBand → List String
  lines path name band =
      header path name band
      ++ call_lines (map target_of path.dynamic_only_edges) 1 path.call_sequence
      ++ map static_line path.never_observed_static_edges
      ++ "" ∷ []
      ++ effect_lines path.side_effects
      ++ impact_lines path.side_effects (impact py path.side_effects no_impact)

  unfoldable pub render_spec : ExecutionPath F → Option String → String × ConfidenceBand
  unfolding confidence_band
  render_spec path name =
      let band = confidence_band path.coverage_pct in (join "\n" (lines path name band), band)
