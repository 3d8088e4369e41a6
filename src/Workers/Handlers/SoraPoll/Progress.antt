-- ===== src/Workers/Handlers/SoraPoll/Progress.antt =====
-- The percentages that the branch `sora.poll` of src/myloware/workers/handlers.py reports.
use mylo_ware.Common.{
  ℕ, suc, ◌*◌, ◌/◌, ◌≤◌, String, ◌≡◌, refl, sym, ◌∙◌, ◌↔◌, some, List, [], ◌∷◌, arith, length, All,
  min, Option, none, true, ◌⊎◌, inl, inr, Option-cases, eq_iff,
}
use mylo_ware.Workers.Handlers.Services.{Services}
use mylo_ware.Workers.Handlers.SoraPoll.{
  Poll, TaskState, one_of, state_of, task_percent, sum_percent, overall_progress,
}

task_percent_le : (sv : Services) (p : Poll) (t : String) → task_percent sv p t ≤ 100
unfolding task_percent
task_percent_le sv p t = ground arith

sum_percent_le :
    (sv : Services) (p : Poll) (ts : List String) → sum_percent sv p ts ≤ 100 * length ts
unfolding sum_percent
sum_percent_le sv p [] = omega arith
sum_percent_le sv p (t ∷ ts) = omega (arith, task_percent_le sv p t, sum_percent_le sv p ts)

-- The task is complete: by the last answer, by a clip that is stored, or by a progress of 100 or more.
abbrev pub Reports : Option ℕ → Type 0
Reports none = ⊥
Reports (some n) = 100 ≤ n

abbrev pub Complete : Option TaskState → Type 0
Complete none = ⊥
Complete (some st) = (st.status ≡ "completed") ⊎ Reports st.progress

abbrev pub IsDone : Poll → String → Type 0
IsDone p t = (one_of t p.existing ≡ true) ⊎ Complete (state_of t p.statuses)

abbrev percent_of : Option ℕ → ℕ
percent_of none = 0
percent_of (some n) = min 100 n

reported : (progress : Option ℕ) → (percent_of progress ≡ 100) ↔ Reports progress
reported none = ground arith
reported (some n) = ground arith

percent_full : (sv : Services) (p : Poll) (t : String) → (task_percent sv p t ≡ 100) ↔ IsDone p t
unfolding task_percent
percent_full sv p t = elim (Option-cases (state_of t p.statuses)) [
  | inl e ↦ rw (e, task_percent) (ground arith)
  | inr (st, e) ↦
      rw (e, task_percent) (ground (arith, eq_iff st.status "completed", reported st.progress))
]

sum_percent_full :
    (sv : Services) (p : Poll) (ts : List String)
    → (sum_percent sv p ts ≡ 100 * length ts) ↔ All (IsDone p) ts
unfolding sum_percent
sum_percent_full sv p [] = (λ h. tt, λ h. refl)
sum_percent_full sv p (t ∷ ts) =
    let (there, back) = sum_percent_full sv p ts in
    let one = task_percent_le sv p t in
    let others = sum_percent_le sv p ts in
    let (full, done) = percent_full sv p t in
    (
      λ h. (full (omega (arith, h, one, others)), there (omega (arith, h, one, others))),
      λ h. omega (arith, done h.0, back h.1),
    )

average_le : (s k : ℕ) → s ≤ 100 * suc k → s / suc k ≤ 100
average_le s k h = grind arith

average_full : (s k : ℕ) → s ≤ 100 * suc k → s / suc k ≡ 100 → s ≡ 100 * suc k
average_full s k h e = grind arith

full_average : (s k : ℕ) → s ≡ 100 * suc k → s / suc k ≡ 100
full_average s k h = grind arith

-- The progress of a run is a percentage: at most 100, and 100 exactly where each of its tasks has a
-- stored clip, or was last seen as completed or with a progress of 100 or more.
pub overall_progress_le :
    (sv : Services) (p : Poll) (ts : List String) {n : ℕ}
    → overall_progress sv p ts ≡ some n
    → (n ≤ 100) × ((n ≡ 100) ↔ All (IsDone p) ts)
unfolding overall_progress
overall_progress_le sv p [] h = absurd (cc)
overall_progress_le sv p (t ∷ ts) {n} h =
    let q : sum_percent sv p (t ∷ ts) / suc (length ts) ≡ n = cc in
    let le = sum_percent_le sv p (t ∷ ts) in
    let (there, back) = sum_percent_full sv p (t ∷ ts) in
    let s = sum_percent sv p (t ∷ ts) in
    (
      omega (arith, q, average_le s (length ts) le),
      (
        λ e. there (average_full s (length ts) le (q ∙ e)),
        λ e. sym q ∙ full_average s (length ts) (back e),
      ),
    )
