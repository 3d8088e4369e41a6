-- ===== src/Storage/Feedback.antt =====
-- The table of feedback and `FeedbackRepository` of src/myloware/storage/{models,repositories}.py.
use mylo_ware.Common.{
  ℕ, String, Bool, Option, List, [], ◌∷◌, ◌++◌, ltb, leb, ◌==◌, select, sort_by, take,
}

pub record Feedback : Type 0 where
  pub id : ℕ
  pub run_id : ℕ
  pub artifact_id : Option ℕ
  pub rating : ℕ
  pub comment : Option String
  pub created_at : ℕ

unfoldable pub create :
    ℕ → ℕ → ℕ → Option ℕ → Option String → ℕ → List Feedback → Feedback × List Feedback
create id run_id rating artifact_id comment now rows =
    let row : Feedback = record {
      id = id;
      run_id = run_id;
      artifact_id = artifact_id;
      rating = rating;
      comment = comment;
      created_at = now;
    } in
    (row, rows ++ row ∷ [])

abbrev pub newer : Feedback → Feedback → Bool
newer a b = ltb b.created_at a.created_at

-- The newest first.
unfoldable pub get_by_run_id : ℕ → List Feedback → List Feedback
unfolding select sort_by
get_by_run_id i rows = sort_by newer (select (λ f. f.run_id == i) rows)

unfoldable pub get_positive_feedback : ℕ → List Feedback → List Feedback
unfolding select sort_by
get_positive_feedback limit rows = take limit (sort_by newer (select (λ f. leb 4 f.rating) rows))
