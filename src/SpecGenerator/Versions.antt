-- ===== src/SpecGenerator/Versions.antt =====
-- The versions of the stored texts, and the rows behind the points.
use tersecontext.Prelude.{
  ℕ, suc, ◌+◌, ◌≤◌, ◌<◌, String, Bool, true, false, ◌≡◌, refl, Option, ap, ◌∙◌, ◌||◌, List, [], ◌∷◌,
  ◌==◌, All, Bool-cases, eq_refl, false≢true, inl, inr, arith,
}
use tersecontext.Prelude.Dict
use tersecontext.Prelude.Dict.{Dict}
use tersecontext.Prelude.Float.{Float}
use tersecontext.Prelude.Effects.{bind_keeps, Result, ok, raise, ◌>>◌, ◌>>=◌}
use tersecontext.Consumer.{Redis, Process, run}
use tersecontext.Consumer.Keeps.{run-Keeps}
use tersecontext.SpecGenerator.Models.{ExecutionPath}
use tersecontext.SpecGenerator.Renderer.{ConfidenceBand, render_spec}
use tersecontext.SpecGenerator.Store.{
  Row, Point, Service, World, is_row_of, upsert_row, row_of, command, upsert_spec, first, lift,
  with_point, point_id, upsert_qdrant, change, count_embedded, entrypoint_name, write_spec,
  write_rendered, path_or_raise, handle, spec_generator,
}

module _ {F : Type 0} where
  abbrev pub total_versions : List (Row F) → ℕ
  total_versions [] = 0
  total_versions (r ∷ rows) = r.version + total_versions rows

  abbrev pub has_row : String → String → String → List (Row F) → Bool
  has_row sid repo commit_sha [] = false
  has_row sid repo commit_sha (r ∷ rows) =
      is_row_of sid repo commit_sha r || has_row sid repo commit_sha rows

  abbrev pub IsIndexed : List (Row F) → String × Point F → Type 0
  IsIndexed rows (k, p) = has_row p.node_stable_id p.repo p.commit_sha rows ≡ true

  -- The versions add up to the number of texts written, every point has the row of its commit, and
  -- no more points than rows were written.
  pub record IsSound (s : Service F) : Type 0 where
    pub counted : total_versions s.rows ≡ s.specs_written_total
    pub indexed : All (IsIndexed s.rows) s.points
    pub embedded : s.specs_embedded_total ≤ s.specs_written_total

  total-upsert_row :
      (new : Row F) (rows : List (Row F))
      → new.version ≡ 1
      → total_versions (upsert_row new rows) ≡ suc (total_versions rows)
  unfolding upsert_row
  total-upsert_row new [] e = ground arith
  total-upsert_row new (r ∷ rows) e =
      elim (Bool-cases (is_row_of new.node_stable_id new.repo new.commit_sha r)) [
        | inl b ↦ rw b (omega arith)
        | inr b ↦ rw b (rw (total-upsert_row new rows e) (omega arith))
      ]

  has_row-upsert_row :
      (sid repo commit_sha : String) (new : Row F) (rows : List (Row F))
      → has_row sid repo commit_sha rows ≡ true
      → has_row sid repo commit_sha (upsert_row new rows) ≡ true
  unfolding upsert_row
  has_row-upsert_row sid repo commit_sha new [] h = absurd (false≢true h)
  has_row-upsert_row sid repo commit_sha new (r ∷ rows) h =
      elim (Bool-cases (is_row_of new.node_stable_id new.repo new.commit_sha r)) [
        | inl b ↦ rw b h
        | inr b ↦ rw b (ground (arith, h, has_row-upsert_row sid repo commit_sha new rows))
      ]

  -- The row that was written is there.
  has_row-new :
      (new : Row F) (rows : List (Row F))
      → has_row new.node_stable_id new.repo new.commit_sha (upsert_row new rows) ≡ true
  unfolding upsert_row
  has_row-new new [] =
      rw (eq_refl new.node_stable_id) (rw (eq_refl new.repo) (rw (eq_refl new.commit_sha) refl))
  has_row-new new (r ∷ rows) =
      elim (Bool-cases (is_row_of new.node_stable_id new.repo new.commit_sha r)) [
        | inl b ↦ rw b (rw b refl)
        | inr b ↦ rw b (rw b (has_row-new new rows))
      ]

  IsIndexed-upsert_row :
      (new : Row F) (rows : List (Row F)) (points : Dict (Point F))
      → All (IsIndexed rows) points
      → All (IsIndexed (upsert_row new rows)) points
  IsIndexed-upsert_row new rows [] h = tt
  IsIndexed-upsert_row new rows ((k, p) ∷ points) h = (
    has_row-upsert_row p.node_stable_id p.repo p.commit_sha new rows h.0,
    IsIndexed-upsert_row new rows points h.1,
  )

  IsIndexed-put :
      (k : String) (p : Point F) (rows : List (Row F)) (points : Dict (Point F))
      → IsIndexed rows (k, p)
      → All (IsIndexed rows) points
      → All (IsIndexed rows) (Dict.put k p points)
  unfolding Dict.put
  IsIndexed-put k p rows [] hp h = (hp, tt)
  IsIndexed-put k p rows ((j, q) ∷ points) hp h = elim (Bool-cases (j == k)) [
    | inl e ↦ rw e (hp, h.1)
    | inr e ↦ rw e (h.0, IsIndexed-put k p rows points hp h.1)
  ]

module _ {F : Type 0} ⦃float : Float F⦄ (world : World F) (is_up : ℕ → Bool) where
  -- A service in which the row of a path is written and counted, its point not yet.
  record IsWritten (path : ExecutionPath F) (s : Service F) : Type 0 where
    sound : IsSound s
    written : has_row path.entrypoint_stable_id path.repo path.commit_sha s.rows ≡ true
    behind : s.specs_embedded_total < s.specs_written_total

  embedded-IsSound :
      (path : ExecutionPath F) (band : ConfidenceBand) (vector : List F) (s : Service F)
      → IsWritten path s
      → IsSound
          ((command world is_up (with_point world is_up path (entrypoint_name path) band vector)
              >> change world is_up (count_embedded world is_up))
            s).1
  unfolding command
  embedded-IsSound path band vector s h = elim (Bool-cases (is_up s.calls)) [
    | inl e ↦ rw e (record {
      counted = h.sound.counted;
      indexed =
          IsIndexed-put (point_id world is_up path) _ s.rows s.points h.written h.sound.indexed;
      embedded = h.behind;
    })
    | inr e ↦ rw e (record {
      counted = h.sound.counted;
      indexed = h.sound.indexed;
      embedded = h.sound.embedded;
    })
  ]

  -- What the provider gives, the point made of it, and the counters.
  upsert_qdrant-IsSound :
      (path : ExecutionPath F) (spec_text : String) (band : ConfidenceBand) (s : Service F)
      → IsWritten path s
      → IsSound
          ((upsert_qdrant world is_up path (entrypoint_name path) spec_text band
              >> change world is_up (count_embedded world is_up))
            s).1
  unfolding upsert_qdrant
  upsert_qdrant-IsSound path spec_text band s h = embedded (world.embed (spec_text ∷ []))
    where
      embedded :
          (r : Result (List (List F)))
          → IsSound
              (((lift world is_up (first world is_up r) >>= λ vector.
                    command world is_up
                      (with_point world is_up path (entrypoint_name path) band vector))
                  >> change world is_up (count_embedded world is_up))
                s).1
      embedded (raise e) = h.sound
      embedded (ok []) = h.sound
      embedded (ok (v ∷ vectors)) = embedded-IsSound path band v s h

  write_spec-IsSound :
      (path : ExecutionPath F) (spec_text : String) (band : ConfidenceBand) (s : Service F)
      → IsSound s
      → IsSound (write_spec world is_up path spec_text band s).1
  unfolding write_spec upsert_spec command row_of
  write_spec-IsSound path spec_text band s h = elim (Bool-cases (is_up s.calls)) [
    | inl e ↦ rw e (
        upsert_qdrant-IsSound path spec_text band _ (record {
          sound = record {
            counted =
                total-upsert_row (row_of path spec_text (world.now (suc s.calls))) s.rows refl
                ∙ ap suc h.counted;
            indexed =
                IsIndexed-upsert_row (row_of path spec_text (world.now (suc s.calls))) s.rows
                  s.points h.indexed;
            embedded = omega (arith, h.embedded);
          };
          written = has_row-new (row_of path spec_text (world.now (suc s.calls))) s.rows;
          behind = omega (arith, h.embedded);
        }))
    | inr e ↦ rw e (record { counted = h.counted; indexed = h.indexed; embedded = h.embedded })
  ]

  handle-IsSound :
      (raw : Option String) (s : Service F) → IsSound s → IsSound (handle world is_up raw s).1
  unfolding handle
  handle-IsSound raw =
      bind_keeps IsSound (lift world is_up (path_or_raise world is_up raw))
        (λ path. write_rendered world is_up path (render_spec world.py path (entrypoint_name path)))
        (λ s h. h)
        (λ path.
          write_spec-IsSound path (render_spec world.py path (entrypoint_name path)).0
            (render_spec world.py path (entrypoint_name path)).1)

  -- For every consumer of the service's stream, whichever commands of Redis, calls of the stores and
  -- answers of the provider fail: the loop, cut off after any number of rounds, keeps that the
  -- versions of all rows add up to the number of texts written, that every point has a row of its
  -- node, repository and commit, and that no more texts were embedded than written.
  pub run-IsSound :
      {R : Type 0} (redis : Redis R (Option String)) (n : ℕ) (p : Process R (Service F))
      → IsSound p.self
      → IsSound (run redis (spec_generator world is_up) n p).1.self
  run-IsSound redis =
      run-Keeps redis (spec_generator world is_up) {P = IsSound} handle-IsSound (λ s h. h)
