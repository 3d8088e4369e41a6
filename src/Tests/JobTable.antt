-- ===== src/Tests/JobTable.antt =====
-- Two jobs of the table of src/myloware/storage/models.py, and two workers.
use mylo_ware.Common.{◌≡◌, refl, inl, true, false, none, some, List, [], ◌∷◌, arith, All, ◌==◌}
use mylo_ware.Common.Rows.{first_where, update_where}
use mylo_ware.Common.Json.{Fields}
use mylo_ware.Storage.Jobs.{
  Job, pending, running, succeeded, conflict, same_key, eligible, before, earlier, next_job,
  claimed, has_id, claim_postgres, touch_lease, mark_failed,
}
use mylo_ware.Storage.Jobs.Trace.{Op, claim, touch, fail, apply, run}
use mylo_ware.Storage.Jobs.Valid.{IsValid, run-IsValid}
use mylo_ware.Storage.Jobs.Claim.{Claims, claim_postgres_least}
use mylo_ware.Storage.Jobs.Held.{HeldAt, lease_excludes}
use mylo_ware.Storage.Jobs.Outcome.{mark_failed_reopens, crash_claims, crash_claims-attempts}

abbrev pub execute_job : Job
execute_job = record {
  id = 1;
  job_type = "run.execute";
  idempotency_key = some "run-7";
  run_id = some 7;
  payload = Fields.end;
  status = pending;
  attempts = 0;
  max_attempts = 3;
  available_at = 10;
  claimed_by = none;
  lease_expires_at = none;
  last_error = none;
  created_at = 10;
  updated_at = 10;
}

abbrev pub resume_job : Job
resume_job = record execute_job {
  id = 2;
  job_type = "run.resume";
  available_at = 20;
  created_at = 20;
  updated_at = 20;
}

abbrev two_jobs : List Job
two_jobs = execute_job ∷ resume_job ∷ []

two_jobs-IsValid : IsValid two_jobs
unfolding conflict same_key
two_jobs-IsValid = record {
  rows = ((refl, refl, inl refl), ((refl, refl, inl refl), tt));
  apart = ((refl, tt), (tt, tt));
}

-- One worker claims and fails, another claims.
abbrev some_ops : List Op
some_ops =
    claim [] "w1" 100 60 ∷ fail 1 "timeout" 110 5 ∷ claim [] "w2" 120 60 ∷ touch 2 "w2" 130 60 ∷ []

run-IsValid_example : IsValid (run some_ops two_jobs)
run-IsValid_example = run-IsValid some_ops two_jobs two_jobs-IsValid

claim_postgres_least_example :
    Claims (1 ∷ []) "w1" 100 60 two_jobs (claim_postgres (1 ∷ []) "w1" 100 60 two_jobs)
claim_postgres_least_example = claim_postgres_least (1 ∷ []) "w1" 100 60 two_jobs

abbrev after_claim : List Job
after_claim = claimed "w1" 100 60 execute_job ∷ resume_job ∷ []

first_claim :
    claim_postgres [] "w1" 100 60 two_jobs ≡ (some (claimed "w1" 100 60 execute_job), after_claim)
unfolding claim_postgres next_job earlier before eligible claimed update_where
first_claim = refl

abbrev renewal : List Op
renewal = touch 1 "w1" 130 60 ∷ []

second_claim :
    (claim_postgres [] "w2" 150 60 (run renewal after_claim)).0
    ≡ some (claimed "w2" 150 60 resume_job)
unfolding run apply touch_lease claim_postgres next_job earlier before eligible claimed update_where
second_claim = refl

lease_excludes_example : All (HeldAt 1 "w1" 160) (run renewal after_claim) × ((2 == 1) ≡ false)
unfolding claimed
lease_excludes_example =
    lease_excludes [] "w1" 100 60 two_jobs renewal [] "w2" 150 60 first_claim
      ((λ h. omega arith), tt) (omega arith) second_claim

abbrev finished_job : Job
finished_job = record execute_job { status = succeeded; attempts = 2 }

mark_failed_reopens_example :
    (j' : Job) × (first_where (has_id 1) (mark_failed 1 "late" 300 5 (finished_job ∷ [])).1
      ≡ some j')
    × (j'.status ≡ pending)
    × (eligible 305 j' ≡ true)
mark_failed_reopens_example =
    mark_failed_reopens 1 "late" 300 5 (finished_job ∷ []) {j = finished_job}
      (unfold first_where in refl) refl (omega arith)

-- All its attempts are used up, and its worker has died.
abbrev spent_job : Job
spent_job = record execute_job {
  status = running;
  attempts = 3;
  claimed_by = some "w1";
  lease_expires_at = some 160;
}

crash_claims-attempts_example :
    (j' : Job) × (crash_claims 4 "w2" 200 60 (spent_job ∷ []) ≡ j' ∷ [])
    × (j'.status ≡ running)
    × (j'.attempts ≡ 7)
    × (j'.max_attempts ≡ 3)
crash_claims-attempts_example =
    crash_claims-attempts 4 "w2" 200 60 160 spent_job refl refl (omega arith)
