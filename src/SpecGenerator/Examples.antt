-- ===== src/SpecGenerator/Examples.antt =====
-- Runs of the specification generator, with numbers to two places for Python's floats.
use tersecontext.Prelude.{
  ℕ, suc, false, Option, ◌+◌, ◌-◌, ◌*◌, ◌/◌, ltb, leb, eqb, String, Bool, not, ◌≡◌, refl, none,
  some, List, [], ◌∷◌, map, arith, ◌==◌, if◌then◌else◌,
}
use tersecontext.Prelude.Dict
use tersecontext.Prelude.Float.{Float}
use tersecontext.Prelude.Effects.{ok}
use tersecontext.Consumer.{Redis, Process, run}
use tersecontext.Normalizer.Models.{SideEffect, db_read, db_write, http_out}
use tersecontext.SpecGenerator.Models.{CallSequenceItem, ExecutionPath}
use tersecontext.SpecGenerator.Touched.{
  Py, extract_table, extract_service, mark_table, add_effect, impact, no_impact,
}
use tersecontext.SpecGenerator.Renderer.{high, medium, low, confidence_band, render_spec}
use tersecontext.SpecGenerator.Store.{
  Row, Service, World, upsert_row, row_of, resolve_branch_coverage, command, upsert_spec,
  upsert_qdrant, write_spec, handle, spec_generator,
}
use tersecontext.SpecGenerator.Versions.{IsSound, run-IsSound}

instance abbrev hundredths : Float ℕ
hundredths = record {
  of_ℕ = λ n. 100 * n;
  add = λ a b. a + b;
  sub = λ a b. a - b;
  mul = λ a b. a * b / 100;
  div = λ a b. a * 100 / b;
  lt = ltb;
  le = leb;
}

bands :
    map (confidence_band {F = ℕ}) (none ∷ some 80 ∷ some 79 ∷ some 40 ∷ some 39 ∷ [])
    ≡ medium ∷ high ∷ medium ∷ medium ∷ low ∷ []
unfolding confidence_band
bands = refl

abbrev item : String → ℕ → CallSequenceItem ℕ
item sid ratio = record {
  stable_id = sid;
  name = none;
  qualified_name = none;
  hop = 0;
  frequency_ratio = ratio;
  avg_ms = 500;
  args = none;
}

abbrev path : ExecutionPath ℕ
path = record {
  entrypoint_stable_id = "login";
  commit_sha = "c1";
  repo = "r";
  call_sequence = item "login" 100 ∷ item "audit" 0 ∷ [];
  side_effects = [];
  dynamic_only_edges = [];
  never_observed_static_edges = [];
  timing_p50_ms = 500;
  timing_p99_ms = 900;
  coverage_pct = none;
}

half_observed : resolve_branch_coverage path ≡ some 50
unfolding resolve_branch_coverage
half_observed = refl

-- `split` on the texts of the tests.
abbrev words_of : String → List String
words_of detail =
    if detail == "SELECT id FROM users"
    then "SELECT" ∷ "id" ∷ "FROM" ∷ "users" ∷ []
    else if detail == "UPDATE users SET x"
    then "UPDATE" ∷ "users" ∷ "SET" ∷ "x" ∷ []
    else detail ∷ []

abbrev py : Py ℕ
py = record {
  split = words_of;
  upper = λ s. s;
  strip = λ s. s;
  search_host = λ s. none;
  str = λ n. "1";
  two_places = λ x. "1.00";
  one_place = λ x. "5.0";
  percentage = λ x. "0%";
}

abbrev select : SideEffect
select = record { kind = db_read; detail = "SELECT id FROM users"; hop_depth = 1 }

abbrev update : SideEffect
update = record { kind = db_write; detail = "UPDATE users SET x"; hop_depth = 1 }

abbrev post : SideEffect
post = record { kind = http_out; detail = "mail"; hop_depth = 2 }

read_and_written :
    (impact py (select ∷ update ∷ post ∷ []) no_impact).tables ≡ ("users", "r" ∷ "w" ∷ []) ∷ []
unfolding add_effect mark_table extract_table Dict.get Dict.put
read_and_written = refl

rendered :
    (render_spec py (record path { side_effects = update ∷ post ∷ [] }) none).0
    ≡ "PATH None  (MEDIUM confidence · 0% branch coverage)\n  1.  login    1.00    ~5.0ms    [confirmed]\n  1.  audit    1.00    ~5.0ms    [confirmed]\n\nSIDE_EFFECTS:\n  DB WRITE   UPDATE users SET x\n  HTTP OUT   mail   (conditional)\n\nCHANGE_IMPACT:\n  tables affected    users (w)\n  external services  mail (conditional)"
unfolding render_spec confidence_band add_effect mark_table extract_table extract_service Dict.get
    Dict.put
rendered = refl

abbrev world : World ℕ
world = record {
  embed = λ texts. ok ((1 ∷ 2 ∷ []) ∷ []);
  uuid5 = λ s. s;
  now = λ n. n;
  path_of_json = λ s. some path;
  py = py;
}

abbrev fresh : Service ℕ
fresh = record {
  rows = [];
  points = [];
  specs_written_total = 0;
  specs_embedded_total = 0;
  messages_processed_total = 0;
  calls = 0;
}

abbrev up_but_second : ℕ → Bool
up_but_second n = not (eqb n 1)

-- The first message writes its text only; the second one raises the version.
abbrev twice : Service ℕ
twice = (handle world up_but_second (some "p") (handle world up_but_second (some "p") fresh).1).1

abbrev version_of : Row ℕ → String × ℕ
version_of r = (r.commit_sha, r.version)

twice_written :
    (map version_of twice.rows ≡ ("c1", 2) ∷ [])
    × (Dict.keys twice.points ≡ "login:r" ∷ [])
    × (twice.specs_written_total ≡ 2)
    × (twice.messages_processed_total ≡ 1)
unfolding handle write_spec upsert_spec upsert_qdrant command upsert_row row_of Dict.put
twice_written = (refl, refl, refl, refl)

-- Each read brings one path.
abbrev one_path : Redis ℕ (Option String)
one_path = record {
  xgroup_create = λ n. (ok tt, n);
  busy_group = λ e. false;
  xreadgroup = λ n. (
    ok (some (("stream:execution-paths", record { msg_id = "1"; body = some "p" } ∷ []) ∷ [])),
    n,
  );
  xack = λ id n. (ok tt, suc n);
  xadd_dlq = λ id e d n. (ok tt, n);
  aclose = λ n. n;
}

abbrev started : Process ℕ (Service ℕ)
started = record { redis = 0; self = fresh }

run-IsSound_example : IsSound (run one_path (spec_generator world up_but_second) 2 started).1.self
run-IsSound_example =
    run-IsSound world up_but_second one_path 2 started
      (record { counted = refl; indexed = tt; embedded = omega arith })
