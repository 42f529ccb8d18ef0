-- ===== src/Discoverer/Examples.antt =====
-- Three entrypoints for the theorems on the discoverer.
use tersecontext.Prelude.{
  ℕ, String, Bool, not, eqb, List, [], ◌∷◌, ◌++◌, ◌≡◌, refl, map, keep, length,
}
use tersecontext.Prelude.Dict
use tersecontext.Prelude.Dict.{Dict}
use tersecontext.Discoverer.{
  EntrypointJob, Entrypoint, score_entrypoints, Server, queue, run_discover,
}
use tersecontext.Discoverer.Ranking.{
  is_new, is_changed, is_settled, ranked, score_entrypoints-ranks,
}
use tersecontext.Discoverer.Queues.{
  belongs, before_failure, all_up, outcome_of, run_discover-queues,
}

abbrev entry : String → Entrypoint
entry path = record { stable_id = path; name = "main"; file_path = path }

abbrev entries : List Entrypoint
entries = entry "a.py" ∷ entry "b.go" ∷ entry "c.py" ∷ []

abbrev traced_map : Dict ℕ
traced_map = ("a.py", 10) ∷ ("c.py", 12) ∷ []

abbrev idle : Server
idle = record { queues = []; commands = 0 }

abbrev fails_at_1 : ℕ → Bool
fails_at_1 n = not (eqb n 1)

abbrev jobs : List EntrypointJob
jobs = score_entrypoints entries traced_map ("c.py" ∷ []) "shop"

abbrev priorities : List EntrypointJob → List (String × ℕ)
priorities [] = []
priorities (job ∷ rest) = (job.stable_id, job.priority) ∷ priorities rest

ranking_test : priorities jobs ≡ ("c.py", 3) ∷ ("b.go", 2) ∷ ("a.py", 1) ∷ []
unfolding score_entrypoints Dict.get
ranking_test = refl

score_entrypoints-ranks_example :
    jobs
    ≡ map
        (ranked traced_map ("c.py" ∷ []) "shop" 3)
        (keep (is_changed traced_map ("c.py" ∷ []) "shop") entries)
      ++ (map
            (ranked traced_map ("c.py" ∷ []) "shop" 2)
            (keep (is_new traced_map ("c.py" ∷ []) "shop") entries)
          ++ map
              (ranked traced_map ("c.py" ∷ []) "shop" 1)
              (keep (is_settled traced_map ("c.py" ∷ []) "shop") entries))
score_entrypoints-ranks_example = score_entrypoints-ranks traced_map ("c.py" ∷ []) "shop" entries

-- The first push works, the second one fails.
run_discover-queues_example :
    (queue "entrypoint_queue:shop"
        (run_discover fails_at_1 entries traced_map ("c.py" ∷ []) "shop" idle).1.queues
      ≡ queue "entrypoint_queue:shop" idle.queues
        ++ keep (belongs "shop" "entrypoint_queue:shop") (before_failure "shop" fails_at_1 0 jobs))
    × ((run_discover fails_at_1 entries traced_map ("c.py" ∷ []) "shop" idle).0
        ≡ outcome_of "shop" fails_at_1
            (all_up "shop" fails_at_1 0 jobs)
            (length entries, length entries))
run_discover-queues_example =
    run_discover-queues "shop" fails_at_1 entries traced_map ("c.py" ∷ []) idle
      "entrypoint_queue:shop"
