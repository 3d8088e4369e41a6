-- ===== src/Workflow/Cleanup/Rows.antt =====
-- Each row of the table after the updates of src/myloware/workflows/cleanup.py.
use mathlib.Core.Path.{subst}
use mathlib.Core.Bool.{false≢true}
use mylo_ware.Common.{
  ℕ, String, ◌≡◌, refl, sym, ap, ◌∙◌, Bool, true, false, ◌||◌, inl, inr, some, List, [], ◌∷◌, map,
  arith, All, Any, Bool-cases, Option-cases, ◌==◌, All-map_fun, All-zip,
}
use mylo_ware.Common.Rows.{update_where, first_where, first_where-none, Pairwise, changed}
use mylo_ware.Storage.Runs
use mylo_ware.Storage.Runs.{Run, has_id, change, change_all, stamp, is_aged, find_by_status_and_age}
use mylo_ware.Storage.Runs.Status.{
  failed, awaiting_video_generation, awaiting_render, normalize_status, of_value,
}
use mylo_ware.Workflow.Cleanup.{timeout_message, time_out_run, time_out_all}

abbrev pub DistinctIds : List Run → Type 0
DistinctIds runs = Pairwise (λ a b. (a.id == b.id) ≡ false) runs

-- A run that waits for videos or for a render, untouched since the cutoff.
abbrev pub is_stuck : ℕ → Run → Bool
is_stuck older_than r =
    is_aged awaiting_video_generation older_than r || is_aged awaiting_render older_than r

abbrev fail_with : String → ℕ → Run → Run
fail_with message later r = record r {
  status = failed;
  error = some message;
  updated_at = some later;
}

-- The run after its timeout.
abbrev pub timed_out : (ℕ → String) → ℕ → Run → Run
timed_out str later r = fail_with (timeout_message str later r) later r

update_where-none :
    (test : Run → Bool) (f : Run → Run) (runs : List Run)
    → All (λ r. test r ≡ false) runs
    → update_where test f runs ≡ runs
unfolding update_where
update_where-none test f [] h = refl
update_where-none test f (r ∷ runs) h = rw (h.0, update_where-none test f runs h.1) refl

-- The row found, if it has the id of `q`, is `q`.
abbrev pub Same : Run → Run → Type 0
Same q r = has_id r.id q ≡ true → r ≡ q

module _ (str : ℕ → String) (later : ℕ) where
  time_out_run_lem :
      (r : Run) (runs : List Run)
      → time_out_run str later r runs
        ≡ update_where (has_id r.id) (fail_with (timeout_message str later r) later) runs
  unfolding time_out_run Runs.update Runs.get change_all change stamp normalize_status of_value
      first_where
  time_out_run_lem r runs = elim (Option-cases (first_where (has_id r.id) runs)) [
    | inl e ↦
        rw (e, time_out_run, Runs.update, Runs.get)
          (sym (update_where-none (has_id r.id) _ runs (first_where-none (has_id r.id) runs e)))
    | inr (q, e) ↦ rw (e, time_out_run, Runs.update, Runs.get) refl
  ]

  -- A row after the updates of all the runs found.
  abbrev pub row_after : List Run → Run → Run
  row_after [] q = q
  row_after (r ∷ found) q =
      row_after found (changed (has_id r.id) (fail_with (timeout_message str later r) later) q)

  row_after_fuse :
      (found : List Run) (test : Run → Bool) (f : Run → Run) (runs : List Run)
      → map (row_after found) (update_where test f runs)
        ≡ map (λ q. row_after found (changed test f q)) runs
  unfolding update_where
  row_after_fuse found test f [] = refl
  row_after_fuse found test f (r ∷ runs) = rw (row_after_fuse found test f runs) refl

  row_after_nil : (runs : List Run) → runs ≡ map (row_after []) runs
  row_after_nil [] = refl
  row_after_nil (r ∷ runs) = ap (λ rs. r ∷ rs) (row_after_nil runs)

  pub time_out_all_rows :
      (found runs : List Run) → time_out_all str later found runs ≡ map (row_after found) runs
  unfolding time_out_all
  time_out_all_rows [] runs = row_after_nil runs
  time_out_all_rows (r ∷ found) runs =
      time_out_all_rows found (time_out_run str later r runs)
      ∙ ap (map (row_after found)) (time_out_run_lem r runs)
      ∙ row_after_fuse found (has_id r.id) (fail_with (timeout_message str later r) later) runs

  row_after_done :
      (found : List Run) (q : Run)
      → All (Same q) found
      → row_after found (timed_out str later q) ≡ timed_out str later q
  row_after_done [] q h = refl
  row_after_done (r ∷ found) q h = elim (Bool-cases (has_id r.id q)) [
    | inl e ↦ rw e (
        subst
          (λ (x : Run).
            row_after found (fail_with (timeout_message str later x) later (timed_out str later q))
            ≡ timed_out str later q)
          (sym (h.0 e)) (row_after_done found q h.1))
    | inr e ↦ rw e (row_after_done found q h.1)
  ]

  pub row_after_hit :
      (found : List Run) (q : Run)
      → All (Same q) found
      → Any (λ r. r ≡ q) found
      → row_after found q ≡ timed_out str later q
  row_after_hit [] q h any = elim any [ ]
  row_after_hit (r ∷ found) q h any = elim (Bool-cases (has_id r.id q)) [
    | inl e ↦ rw e (
        subst
          (λ (x : Run).
            row_after found (fail_with (timeout_message str later x) later q)
            ≡ timed_out str later q)
          (sym (h.0 e)) (row_after_done found q h.1))
    | inr e ↦ rw e (
        row_after_hit found q h.1 (elim any [
          | inl p ↦ absurd (ground (arith, e, ap (λ (x : Run). x.id) p))
          | inr rest ↦ rest
        ]))
  ]

  pub row_after_miss :
      (found : List Run) (q : Run) → All (λ r. has_id r.id q ≡ false) found → row_after found q ≡ q
  row_after_miss [] q h = refl
  row_after_miss (r ∷ found) q h = rw h.0 (row_after_miss found q h.1)

pub DistinctIds-Same : (runs : List Run) → DistinctIds runs → All (λ q. All (Same q) runs) runs
DistinctIds-Same [] h = tt
DistinctIds-Same (x ∷ runs) h = (
  (
    (λ e. refl),
    All-map_fun (λ r. (x.id == r.id) ≡ false) (Same x) runs
        (λ r ne e. absurd (false≢true (sym ne ∙ e))) h.0,
  ),
  All-zip (λ q. Same q x) (λ q. All (Same q) runs) runs
      (All-map_fun (λ r. (x.id == r.id) ≡ false) (λ q. Same q x) runs
        (λ q ne e. absurd (ground (arith, ne, e))) h.0)
      (DistinctIds-Same runs h.1),
)
