-- ===== src/Workflow/Cleanup/Laws.antt =====
-- A cleanup is one UPDATE of the stuck runs.
use mathlib.Core.Bool.{false≢true}
use mylo_ware.Common.{
  ℕ, String, ◌≡◌, refl, sym, ap, ◌∙◌, Bool, true, false, inl, inr, List, [], ◌∷◌, map, arith, All,
  Any, Bool-cases, ◌==◌, select, All-sort_by, All-select_of, All-map_fun, All-zip, All-Any,
  Any-select, Any-sort_by, str_eq,
}
use mylo_ware.Common.Rows.{update_where, Pairwise-update_where, changed}
use mylo_ware.Storage.Runs.{Run, has_id, is_aged, find_by_status_and_age}
use mylo_ware.Storage.Runs.Status.{RunStatus, awaiting_video_generation, awaiting_render, value}
use mylo_ware.Workflow.Cleanup.{cutoff, time_out_all, time_out_statuses, timeout_stuck_runs}
use mylo_ware.Workflow.Cleanup.Rows.{
  DistinctIds, is_stuck, timed_out, Same, row_after, time_out_all_rows, row_after_hit,
  row_after_miss, DistinctIds-Same,
}

module _ (str : ℕ → String) (later : ℕ) (s : RunStatus) (older_than : ℕ) where
  row_after_found :
      (runs : List Run) (q : Run)
      → All (Same q) runs
      → Any (λ r. r ≡ q) runs
      → row_after str later (find_by_status_and_age s older_than runs) q
        ≡ changed (is_aged s older_than) (timed_out str later) q
  unfolding find_by_status_and_age
  row_after_found runs q same any = elim (Bool-cases (is_aged s older_than q)) [
    | inl e ↦ rw e (
        row_after_hit str later _ q
          (All-sort_by (Same q) _ _ (
            All-select_of (Same q) (is_aged s older_than) runs (
              All-map_fun (Same q) (λ r. is_aged s older_than r ≡ true → Same q r) runs
                (λ r h aged. h) same)))
          (Any-sort_by (λ r. r ≡ q) _ _ (Any-select (is_aged s older_than) q runs e any)))
    | inr e ↦ rw e (
        row_after_miss str later _ q (
          All-sort_by (λ r. has_id r.id q ≡ false) _ _
            (All-select_of (λ r. has_id r.id q ≡ false) (is_aged s older_than) runs
              (All-map_fun (Same q) (λ r. is_aged s older_than r ≡ true → has_id r.id q ≡ false)
                runs (λ r h aged. other_id r q e h aged) same))))
  ]
    where
      other_id :
          (r q : Run)
          → is_aged s older_than q ≡ false
          → Same q r
          → is_aged s older_than r ≡ true
          → has_id r.id q ≡ false
      other_id r q e h aged = elim (Bool-cases (has_id r.id q)) [
        | inl same ↦ absurd (false≢true (sym e ∙ sym (ap (is_aged s older_than) (h same)) ∙ aged))
        | inr other ↦ other
      ]

  map_rows :
      (found runs : List Run)
      → All
          (λ q.
            row_after str later found q ≡ changed (is_aged s older_than) (timed_out str later) q)
          runs
      → map (row_after str later found) runs
        ≡ update_where (is_aged s older_than) (timed_out str later) runs
  unfolding update_where
  map_rows found [] h = refl
  map_rows found (q ∷ runs) h = rw (h.0, map_rows found runs h.1) refl

  -- One query and its updates are one UPDATE.
  time_out_all-found :
      (runs : List Run)
      → DistinctIds runs
      → time_out_all str later (find_by_status_and_age s older_than runs) runs
        ≡ update_where (is_aged s older_than) (timed_out str later) runs
  time_out_all-found runs h =
      let found = find_by_status_and_age s older_than runs in
      time_out_all_rows str later found runs
      ∙ map_rows found runs (
          All-map_fun (λ q. All (Same q) runs × Any (λ r. r ≡ q) runs)
            (λ q.
              row_after str later found q ≡ changed (is_aged s older_than) (timed_out str later) q)
            runs (λ q known. row_after_found runs q known.0 known.1)
            (All-zip (λ q. All (Same q) runs) (λ q. Any (λ r. r ≡ q) runs) runs
              (DistinctIds-Same runs h) (All-Any runs)))

two_updates :
    (str : ℕ → String) (later older_than : ℕ) (runs : List Run)
    → update_where
        (is_aged awaiting_render older_than)
        (timed_out str later)
        (update_where (is_aged awaiting_video_generation older_than) (timed_out str later) runs)
      ≡ update_where (is_stuck older_than) (timed_out str later) runs
unfolding update_where
two_updates str later older_than [] = refl
two_updates str later older_than (r ∷ runs) =
    elim (Bool-cases (is_aged awaiting_video_generation older_than r)) [
      | inl e ↦ rw (e, two_updates str later older_than runs) refl
      | inr e ↦ rw (e, two_updates str later older_than runs) refl
    ]

same_ids :
    (str : ℕ → String) (later : ℕ) (test : Run → Bool) (a b : Run)
    → (a.id == b.id) ≡ false
    → ((changed test (timed_out str later) a).id == (changed test (timed_out str later) b).id)
      ≡ false
same_ids str later test a b ne = elim (Bool-cases (test a)) [
  | inl e ↦ elim (Bool-cases (test b)) [ inl f ↦ rw (e, f) ne | inr f ↦ rw (e, f) ne ]
  | inr e ↦ elim (Bool-cases (test b)) [ inl f ↦ rw (e, f) ne | inr f ↦ rw (e, f) ne ]
]

one_status :
    (s : RunStatus)
    → str_eq (value s) (value awaiting_video_generation) ≡ true
    → str_eq (value s) (value awaiting_render) ≡ false
one_status awaiting_render h = absurd (false≢true h)
one_status s h = refl

-- The runs that the second query finds are not those of the first.
second_found :
    (str : ℕ → String) (later older_than : ℕ) (runs : List Run)
    → select
        (is_aged awaiting_render older_than)
        (update_where (is_aged awaiting_video_generation older_than) (timed_out str later) runs)
      ≡ select (is_aged awaiting_render older_than) runs
unfolding select update_where
second_found str later older_than [] = refl
second_found str later older_than (r ∷ runs) =
    elim (Bool-cases (is_aged awaiting_video_generation older_than r)) [
      | inl e ↦
          let other : is_aged awaiting_render older_than r ≡ false =
            ground (arith, e, one_status r.status) in
          rw (e, other, second_found str later older_than runs) refl
      | inr e ↦ rw (e, second_found str later older_than runs) refl
    ]

-- Where no two runs share an id, the cleanup is one UPDATE: every run that waits for videos or for a
-- render, and was not updated since the cutoff, is failed with the message of its own wait, and every
-- other run stays as it was. A dry run changes nothing, and names the same runs.
pub timeout_stuck_runs_lem :
    (str : ℕ → String) (timeout_minutes now later : ℕ) (runs : List Run)
    → DistinctIds runs
    → ((timeout_stuck_runs str timeout_minutes false now later runs).1
        ≡ update_where (is_stuck (cutoff timeout_minutes now)) (timed_out str later) runs)
      × ((timeout_stuck_runs str timeout_minutes true now later runs).1 ≡ runs)
      × ((timeout_stuck_runs str timeout_minutes true now later runs).0
          ≡ (timeout_stuck_runs str timeout_minutes false now later runs).0)
unfolding timeout_stuck_runs time_out_statuses find_by_status_and_age
timeout_stuck_runs_lem str timeout_minutes now later runs h =
    let older_than = cutoff timeout_minutes now in
    let first = time_out_all-found str later awaiting_video_generation older_than runs h in
    let apart : DistinctIds
        (update_where (is_aged awaiting_video_generation older_than) (timed_out str later) runs) =
      Pairwise-update_where (λ a b. (a.id == b.id) ≡ false)
        (is_aged awaiting_video_generation older_than) (timed_out str later) runs
        (λ a b ne. same_ids str later (is_aged awaiting_video_generation older_than) a b ne) h in
    let second = time_out_all-found str later awaiting_render older_than _ apart in
    (
      rw first (second ∙ two_updates str later older_than runs),
      refl,
      rw (first, second_found str later older_than runs) refl,
    )
