-- ===== src/Storage/Jobs.antt =====
-- The job table and `JobRepository` of src/myloware/storage/{models,repositories}.py. Times are
-- numbers of microseconds. Each operation reads the clock once (`now`); the column `updated_at` is
-- written by every statement that changes a row (`onupdate`).
pub mod Order
pub mod Claim
pub mod Trace
pub mod Valid
pub mod Held
pub mod Outcome
use mylo_ware.Common.{
  ℕ, ◌+◌, String, Bool, true, false, ◌&&◌, ◌||◌, Option, none, some, List, [], ◌∷◌, ◌++◌, leb, ltb,
  ◌==◌, str_eq, if◌then◌else◌,
}
use mylo_ware.Common.Rows.{update_where, first_where}
use mylo_ware.Common.Json.{Fields}

pub data JobStatus : Type 0 where
  pending running succeeded failed : JobStatus

pub record Job : Type 0 where
  pub id : ℕ
  pub job_type : String
  pub idempotency_key : Option String
  pub run_id : Option ℕ
  pub payload : Fields
  pub status : JobStatus
  pub attempts : ℕ
  pub max_attempts : ℕ
  pub available_at : ℕ
  pub claimed_by : Option String
  pub lease_expires_at : Option ℕ
  pub last_error : Option String
  pub created_at : ℕ
  pub updated_at : ℕ

abbrev pub is_pending : JobStatus → Bool
is_pending pending = true
is_pending _ = false

abbrev pub is_running : JobStatus → Bool
is_running running = true
is_running _ = false

-- What the caller of `enqueue_async` gives; `id` is the row's fresh `uuid4`.
pub record NewJob : Type 0 where
  pub id : ℕ
  pub job_type : String
  pub idempotency_key : Option String
  pub run_id : Option ℕ
  pub payload : Option Fields
  pub max_attempts : ℕ
  pub available_at : Option ℕ

-- SQL: two NULL keys do not collide in a unique index.
unfoldable pub same_key : Option String → Option String → Bool
same_key none k = false
same_key (some j) none = false
same_key (some j) (some k) = str_eq j k

-- The primary key, or `ux_jobs_type_idempotency`, refuses one of two rows.
unfoldable pub conflict : Job → Job → Bool
unfolding same_key
conflict a b =
    a.id == b.id || (str_eq a.job_type b.job_type && same_key a.idempotency_key b.idempotency_key)

abbrev fields_or_empty : Option Fields → Fields
fields_or_empty none = Fields.end
fields_or_empty (some p) = p

abbrev time_or : Option ℕ → ℕ → ℕ
time_or none now = now
time_or (some t) now = t

unfoldable pub new_row : NewJob → ℕ → Job
new_row n now = record {
  id = n.id;
  job_type = n.job_type;
  idempotency_key = n.idempotency_key;
  run_id = n.run_id;
  payload = fields_or_empty n.payload;
  status = pending;
  attempts = 0;
  max_attempts = n.max_attempts;
  available_at = time_or n.available_at now;
  claimed_by = none;
  lease_expires_at = none;
  last_error = none;
  created_at = now;
  updated_at = now;
}

-- `none` is `ValueError("job_already_enqueued")`.
unfoldable pub enqueue : NewJob → ℕ → List Job → Option (List Job)
unfolding new_row
enqueue n now jobs = elim (first_where (λ j. conflict j (new_row n now)) jobs) [
  | none ↦ some (jobs ++ new_row n now ∷ [])
  | some j ↦ none
]

-- SQL: a comparison with NULL is not true.
abbrev expired : Option ℕ → ℕ → Bool
expired none now = false
expired (some t) now = leb t now

abbrev unleased : Option ℕ → ℕ → Bool
unleased none now = true
unleased (some t) now = leb t now

-- The clause that both ways to claim share.
unfoldable pub eligible : ℕ → Job → Bool
eligible now j =
    (is_pending j.status && leb j.available_at now && unleased j.lease_expires_at now)
    || (is_running j.status && expired j.lease_expires_at now)

-- ORDER BY available_at, created_at: `a` strictly before `b`.
unfoldable pub before : Job → Job → Bool
before a b =
    ltb a.available_at b.available_at
    || (a.available_at == b.available_at && ltb a.created_at b.created_at)

-- The better of a row and the best of the rows after it.
unfoldable pub earlier : (Job → Bool) → Job → Option Job → Option Job
unfolding before
earlier test j none = if test j then some j else none
earlier test j (some k) = if test j && (if before k j then false else true) then some j else some k

-- ... LIMIT 1 of the rows that pass `test`. Of rows that tie, the database may return any; the
-- model takes the first.
unfoldable pub next_job : (Job → Bool) → List Job → Option Job
unfolding earlier
next_job test [] = none
next_job test (j ∷ js) = earlier test j (next_job test js)

unfoldable pub claimed : String → ℕ → ℕ → Job → Job
claimed worker_id now lease j = record j {
  status = running;
  attempts = j.attempts + 1;
  claimed_by = some worker_id;
  lease_expires_at = some (now + lease);
  updated_at = now;
}

abbrev pub has_id : ℕ → Job → Bool
has_id i j = j.id == i

abbrev pub is_locked : List ℕ → ℕ → Bool
is_locked [] i = false
is_locked (k ∷ ks) i = k == i || is_locked ks i

abbrev free_and : List ℕ → ℕ → Job → Bool
free_and locked now j = (if is_locked locked j.id then false else true) && eligible now j

-- `claim_next_async` on Postgres, FOR UPDATE SKIP LOCKED: rows that other transactions have locked
-- are passed over.
unfoldable pub claim_postgres : List ℕ → String → ℕ → ℕ → List Job → Option Job × List Job
unfolding next_job
claim_postgres locked worker_id now lease jobs = elim (next_job (free_and locked now) jobs) [
  | none ↦ (none, jobs)
  | some j ↦ (
    some (claimed worker_id now lease j),
    update_where (has_id j.id) (claimed worker_id now lease) jobs,
  )
]

-- The portable UPDATE: it counts only if the row is still eligible when it runs.
unfoldable pub claim_if_eligible : ℕ → String → ℕ → ℕ → List Job → Option Job × List Job
unfolding first_where
claim_if_eligible i worker_id now lease jobs =
    elim (first_where (λ j. has_id i j && eligible now j) jobs) [
      | none ↦ (none, jobs)
      | some j ↦
          let jobs' =
            update_where (λ j. has_id i j && eligible now j) (claimed worker_id now lease) jobs in
          (first_where (has_id i) jobs', jobs')
    ]

-- The portable claim: the SELECT saw the rows `seen`, the UPDATE runs on `jobs`, between them other
-- workers may have run.
unfoldable pub claim_portable : List Job → String → ℕ → ℕ → List Job → Option Job × List Job
unfolding claim_if_eligible
claim_portable seen worker_id now lease jobs = elim (next_job (eligible now) seen) [
  | none ↦ (none, jobs)
  | some j ↦ claim_if_eligible j.id worker_id now lease jobs
]

-- `touch_lease_async`
abbrev pub held_by : ℕ → String → Job → Bool
held_by i worker_id j =
    has_id i j
    && is_running j.status
    && elim j.claimed_by [ none ↦ false | some w ↦ str_eq w worker_id ]

unfoldable pub touch_lease : ℕ → String → ℕ → ℕ → List Job → List Job
unfolding update_where
touch_lease i worker_id now lease =
    update_where (held_by i worker_id)
      (λ j. record j { lease_expires_at = some (now + lease); updated_at = now })

-- `mark_succeeded_async`
unfoldable pub mark_succeeded : ℕ → ℕ → List Job → List Job
unfolding update_where
mark_succeeded i now = update_where (has_id i) (λ j. record j {
  status = succeeded;
  lease_expires_at = none;
  claimed_by = none;
  updated_at = now;
})

-- `mark_failed_async`: what it makes of the row, and what it returns.
unfoldable pub failed_row : String → ℕ → ℕ → Job → Job
failed_row error now delay j =
    let released = record j {
      last_error = some error;
      lease_expires_at = none;
      claimed_by = none;
      updated_at = now;
    } in
    if leb j.max_attempts j.attempts
    then record released { status = failed }
    else record released { status = pending; available_at = now + delay }

unfoldable pub mark_failed : ℕ → String → ℕ → ℕ → List Job → JobStatus × List Job
unfolding failed_row
mark_failed i error now delay jobs = elim (first_where (has_id i) jobs) [
  | none ↦ (failed, jobs)
  | some j ↦ (
    if leb j.max_attempts j.attempts then failed else pending,
    update_where (has_id i) (failed_row error now delay) jobs,
  )
]
