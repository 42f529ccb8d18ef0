-- ===== src/SpecGenerator/Store.antt =====
-- services/spec-generator/app/store.py and consumer.py. The texts go to the table `behavior_specs`, the
-- vectors to the collection `specs`; both stores and the provider may fail at every call.
use Prim.Native.String.{◌++◌ as ◌<>◌}
use tersecontext.Prelude.{
  ℕ, suc, ◌+◌, String, Bool, ◌&&◌, Option, none, some, List, [], ◌∷◌, ◌==◌, length, if◌then◌else◌,
}
use tersecontext.Prelude.Dict
use tersecontext.Prelude.Dict.{Dict}
use tersecontext.Prelude.Float.{Float}
use tersecontext.Prelude.Effects.{
  key_error, value_error, failure, Result, ok, raise, Action, ◌>>=◌, ◌>>◌,
}
use tersecontext.Consumer.{Subclass}
use tersecontext.SpecGenerator.Models.{CallSequenceItem, ExecutionPath}
use tersecontext.SpecGenerator.Renderer.{ConfidenceBand, render_spec}
use tersecontext.SpecGenerator.Touched.{Py}

-- A row of `behavior_specs`, less its random id, which nothing reads.
pub record Row (F : Type 0) : Type 0 where
  pub node_stable_id : String
  pub repo : String
  pub commit_sha : String
  pub version : ℕ
  pub spec_text : String
  pub branch_coverage : Option F
  pub observed_calls : ℕ
  pub generated_at : ℕ

-- A point of `specs`: its vector and its payload.
pub record Point (F : Type 0) : Type 0 where
  pub vector : List F
  pub node_stable_id : String
  pub entrypoint_name : Option String
  pub repo : String
  pub commit_sha : String
  pub confidence_band : ConfidenceBand
  pub coverage_pct : Option F

-- Both stores, the three counters of the module, and the number of calls made.
pub record Service (F : Type 0) : Type 0 where
  pub rows : List (Row F)
  pub points : Dict (Point F)
  pub specs_written_total : ℕ
  pub specs_embedded_total : ℕ
  pub messages_processed_total : ℕ
  pub calls : ℕ

-- The provider, `uuid.uuid5(uuid.NAMESPACE_OID, s)`, pydantic's reading, Python's methods of texts,
-- and NOW() at the n-th call.
pub record World (F : Type 0) : Type 0 where
  pub embed : List String → Result (List (List F))
  pub uuid5 : String → String
  pub now : ℕ → ℕ
  pub path_of_json : String → Option (ExecutionPath F)
  pub py : Py F

-- `path.call_sequence[0].name`, which may be None, or else the entrypoint.
abbrev pub entrypoint_name : {F : Type 0} → ExecutionPath F → Option String
entrypoint_name path = elim path.call_sequence [
  | [] ↦ some path.entrypoint_stable_id
  | item ∷ items ↦ item.name
]

module _ {F : Type 0} ⦃float : Float F⦄ where
  abbrev pub observed_count : List (CallSequenceItem F) → ℕ
  observed_count [] = 0
  observed_count (item ∷ items) =
      (if float.lt (float.of_ℕ 0) item.frequency_ratio then 1 else 0) + observed_count items

  abbrev pub compute_branch_coverage : List (CallSequenceItem F) → Option F
  compute_branch_coverage [] = none
  compute_branch_coverage (item ∷ items) =
      some (
        float.div (float.of_ℕ (observed_count (item ∷ items))) (float.of_ℕ (length (item ∷ items))))

  abbrev pub coverage_or : Option F → List (CallSequenceItem F) → Option F
  coverage_or (some c) items = some c
  coverage_or none items = compute_branch_coverage items

  unfoldable pub resolve_branch_coverage : ExecutionPath F → Option F
  resolve_branch_coverage path = coverage_or path.coverage_pct path.call_sequence

  -- VALUES of UPSERT_SQL, with the defaults of the table.
  unfoldable pub row_of : ExecutionPath F → String → ℕ → Row F
  unfolding resolve_branch_coverage
  row_of path spec_text now = record {
    node_stable_id = path.entrypoint_stable_id;
    repo = path.repo;
    commit_sha = path.commit_sha;
    version = 1;
    spec_text = spec_text;
    branch_coverage = resolve_branch_coverage path;
    observed_calls = length path.call_sequence;
    generated_at = now;
  }

-- UNIQUE (node_stable_id, repo, commit_sha)
abbrev pub is_row_of : {F : Type 0} → String → String → String → Row F → Bool
is_row_of sid repo commit_sha r =
    r.node_stable_id == sid && (r.repo == repo && r.commit_sha == commit_sha)

-- ON CONFLICT DO UPDATE
abbrev pub updated : {F : Type 0} → Row F → Row F → Row F
updated new r = record r {
  version = suc r.version;
  spec_text = new.spec_text;
  branch_coverage = new.branch_coverage;
  observed_calls = new.observed_calls;
  generated_at = new.generated_at;
}

unfoldable pub upsert_row : {F : Type 0} → Row F → List (Row F) → List (Row F)
upsert_row new [] = new ∷ []
upsert_row new (r ∷ rows) =
    let rest = upsert_row new rows in
    if is_row_of new.node_stable_id new.repo new.commit_sha r
    then updated new r ∷ rows
    else r ∷ rest

module _ {F : Type 0} ⦃float : Float F⦄ (world : World F) (is_up : ℕ → Bool) where
  -- A call of a store changes it, or it raises.
  unfoldable pub command : (Service F → Service F) → Action (Service F) (Unit {0})
  command change s =
      let sent : Service F = record s { calls = suc s.calls } in
      if is_up s.calls then (ok tt, change sent) else (raise (failure "unavailable"), sent)

  abbrev pub with_row : ExecutionPath F → String → Service F → Service F
  with_row path spec_text s = record s {
    rows = upsert_row (row_of path spec_text (world.now s.calls)) s.rows;
  }

  unfoldable pub upsert_spec : ExecutionPath F → String → Action (Service F) (Unit {0})
  unfolding command
  upsert_spec path spec_text = command (with_row path spec_text)

  -- `vectors[0]`
  abbrev pub first : Result (List (List F)) → Result (List F)
  first (raise e) = raise e
  first (ok []) = raise (failure "list index out of range")
  first (ok (v ∷ vectors)) = ok v

  abbrev pub point_id : ExecutionPath F → String
  point_id path = world.uuid5 (path.entrypoint_stable_id <> (":" <> path.repo))

  abbrev pub point_of : ExecutionPath F → Option String → ConfidenceBand → List F → Point F
  point_of path name band vector = record {
    vector = vector;
    node_stable_id = path.entrypoint_stable_id;
    entrypoint_name = name;
    repo = path.repo;
    commit_sha = path.commit_sha;
    confidence_band = band;
    coverage_pct = path.coverage_pct;
  }

  abbrev pub with_point :
      ExecutionPath F → Option String → ConfidenceBand → List F → Service F → Service F
  with_point path name band vector s = record s {
    points = Dict.put (point_id path) (point_of path name band vector) s.points;
  }

  abbrev pub lift : {A : Type 0} → Result A → Action (Service F) A
  lift r s = (r, s)

  unfoldable pub upsert_qdrant :
      ExecutionPath F → Option String → String → ConfidenceBand → Action (Service F) (Unit {0})
  unfolding command
  upsert_qdrant path name spec_text band = lift (first (world.embed (spec_text ∷ []))) >>= λ vector.
      command (with_point path name band vector)

  abbrev pub change : (Service F → Service F) → Action (Service F) (Unit {0})
  change f s = (ok tt, f s)

  abbrev pub count_written : Service F → Service F
  count_written s = record s { specs_written_total = suc s.specs_written_total }

  abbrev pub count_embedded : Service F → Service F
  count_embedded s = record s {
    specs_embedded_total = suc s.specs_embedded_total;
    messages_processed_total = suc s.messages_processed_total;
  }

  unfoldable pub write_spec :
      ExecutionPath F → String → ConfidenceBand → Action (Service F) (Unit {0})
  unfolding upsert_spec upsert_qdrant
  write_spec path spec_text band =
      upsert_spec path spec_text
      >> (change count_written
          >> (upsert_qdrant path (entrypoint_name path) spec_text band >> change count_embedded))

  abbrev pub write_rendered :
      ExecutionPath F → String × ConfidenceBand → Action (Service F) (Unit {0})
  write_rendered path rendered = write_spec path rendered.0 rendered.1

  abbrev pub path_or_raise : Option String → Result (ExecutionPath F)
  path_or_raise none = raise (key_error "message missing 'event' key")
  path_or_raise (some raw) = elim (world.path_of_json raw) [
    | none ↦ raise (value_error "ValidationError")
    | some path ↦ ok path
  ]

  unfoldable pub handle : Option String → Action (Service F) (Unit {0})
  unfolding write_spec
  handle raw = lift (path_or_raise raw) >>= λ path.
      write_rendered path (render_spec world.py path (entrypoint_name path))

  -- SpecGeneratorConsumer
  abbrev pub spec_generator : Subclass (Service F) (Option String)
  spec_generator = record { handle = handle; post_batch = λ s. (ok tt, s) }
