-- ===== src/Storage/Jobs/Outcome.antt =====
-- What a worker's report does to a job: `mark_failed_async` and `mark_succeeded_async` of
-- src/myloware/storage/repositories.py.
use mylo_ware.Common.{
  ℕ, zero, suc, ◌+◌, ◌<◌, ◌≤◌, String, ◌≡◌, refl, true, none, some, List, [], ◌∷◌, arith, leb, ◌==◌,
  if◌then◌else◌,
}
use mylo_ware.Common.Rows.{update_where, first_where, first_where-update_where, first_where-passes}
use mylo_ware.Storage.Jobs.{
  Job, pending, running, succeeded, failed, eligible, next_job, earlier, claimed, has_id,
  claim_postgres, mark_failed, failed_row,
}

-- The row of the id after an UPDATE of that row, and every other row.
row_after :
    (i k : ℕ) (f : Job → Job) (jobs : List Job) {j : Job}
    → ((r : Job) → (f r).id ≡ r.id)
    → first_where (has_id k) jobs ≡ some j
    → first_where (has_id k) (update_where (has_id i) f jobs) ≡ some (if k == i then f j else j)
row_after i k f jobs {j} same h = ground (
  arith,
  first_where-update_where (has_id i) (has_id k) f jobs (λ r. ground (arith, same r)),
  first_where-passes (has_id k) jobs {r = j},
)

failed_row-id :
    (error : String) (now delay : ℕ) (j : Job) → (failed_row error now delay j).id ≡ j.id
unfolding failed_row
failed_row-id error now delay j = ground arith

-- A reported failure ends the job exactly when its attempts have reached `max_attempts`; else the
-- job is pending again, not before the delay is over. The status returned is the one stored, owner
-- and lease are given up on both branches, and the attempts and every other row are unchanged.
pub mark_failed_outcome :
    (i k : ℕ) (error : String) (now delay : ℕ) (jobs : List Job) {j r : Job}
    → first_where (has_id i) jobs ≡ some j
    → first_where (has_id k) jobs ≡ some r
    → let (status, jobs') = mark_failed i error now delay jobs in
      let j' = failed_row error now delay j in
      (first_where (has_id k) jobs' ≡ some (if k == i then failed_row error now delay r else r))
      × (j'.status ≡ status)
      × (status ≡ (if leb j.max_attempts j.attempts then failed else pending))
      × (j'.available_at ≡ (if leb j.max_attempts j.attempts then j.available_at else now + delay))
      × (j'.attempts ≡ j.attempts)
      × (j'.claimed_by ≡ none)
      × (j'.lease_expires_at ≡ none)
unfolding mark_failed failed_row
mark_failed_outcome i k error now delay jobs {j} {r} h hk =
    rw (h, mark_failed)
      (
        row_after i k (failed_row error now delay) jobs {j = r} (failed_row-id error now delay) hk,
        ground arith,
        refl,
        ground arith,
        ground arith,
        ground arith,
        ground arith,
      )

-- A failure reported for a job that has succeeded in the meantime, by another worker after the
-- reporter's lease ended, makes the job pending again while attempts remain, and eligible once the
-- delay is over.
pub mark_failed_reopens :
    (i : ℕ) (error : String) (now delay : ℕ) (jobs : List Job) {j : Job}
    → first_where (has_id i) jobs ≡ some j
    → j.status ≡ succeeded
    → j.attempts < j.max_attempts
    → (j' : Job) × (first_where (has_id i) (mark_failed i error now delay jobs).1 ≡ some j')
      × (j'.status ≡ pending)
      × (eligible (now + delay) j' ≡ true)
unfolding mark_failed failed_row eligible
mark_failed_reopens i error now delay jobs {j} h done left =
    rw (h, mark_failed)
      (
        failed_row error now delay j,
        ground (
          arith,
          row_after i i (failed_row error now delay) jobs {j = j} (failed_row-id error now delay) h,
        ),
        ground arith,
        ground arith,
      )

-- `n` claims of a worker that dies each time, each at the moment when the lease before has ended.
unfoldable pub crash_claims : ℕ → String → ℕ → ℕ → List Job → List Job
crash_claims zero w now lease jobs = jobs
crash_claims (suc n) w now lease jobs =
    crash_claims n w (now + lease) lease (claim_postgres [] w now lease jobs).1

reclaim :
    (w : String) (now lease e : ℕ) (j : Job)
    → j.status ≡ running
    → j.lease_expires_at ≡ some e
    → e ≤ now
    → (claim_postgres [] w now lease (j ∷ [])).1 ≡ claimed w now lease j ∷ []
unfolding claim_postgres next_job earlier eligible update_where
reclaim w now lease e j r l h = ground arith

-- A job whose worker dies before it reports is claimed again each time that its lease has ended,
-- however many attempts it has had: `max_attempts` does not stop it.
pub crash_claims-attempts :
    (n : ℕ) (w : String) (now lease e : ℕ) (j : Job)
    → j.status ≡ running
    → j.lease_expires_at ≡ some e
    → e ≤ now
    → (j' : Job) × (crash_claims n w now lease (j ∷ []) ≡ j' ∷ [])
      × (j'.status ≡ running)
      × (j'.attempts ≡ j.attempts + n)
      × (j'.max_attempts ≡ j.max_attempts)
unfolding crash_claims claimed
crash_claims-attempts zero w now lease e j r l h = (j, refl, r, omega arith, refl)
crash_claims-attempts (suc n) w now lease e j r l h =
    let (j', same, st, at, mx) =
      crash_claims-attempts n w (now + lease) lease (now + lease) (claimed w now lease j) refl refl
        (omega arith) in
    (j', rw (reclaim w now lease e j r l h) same, st, omega arith, mx)
