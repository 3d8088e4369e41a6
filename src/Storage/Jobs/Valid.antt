-- ===== src/Storage/Jobs/Valid.antt =====
-- The invariant of the job table, kept by every operation.
use mylo_ware.Common.{
  ℕ, ◌<◌, ◌≤◌, String, ◌≡◌, refl, ◌⊎◌, inl, inr, Bool, true, false, ◌&&◌, none, List, [], ◌∷◌,
  arith, All, is_some, leb, Option-cases, Bool-cases, leb→le, All-append,
}
use mylo_ware.Common.Rows.{
  update_where, first_where, first_where-none, changed, Pairwise, All-update_where,
  Pairwise-update_where, Pairwise-append_one,
}
use mylo_ware.Storage.Jobs.{
  Job, JobStatus, pending, running, succeeded, failed, NewJob, new_row, conflict, enqueue, eligible,
  claimed, has_id, held_by, free_and, next_job, claim_postgres, claim_if_eligible, claim_portable,
  touch_lease, mark_succeeded, mark_failed, failed_row,
}
use mylo_ware.Storage.Jobs.Trace.{Op, add, claim, claim_old, touch, succeed, fail, kept, apply, run}

-- What the status says of the lease and of the attempts.
abbrev StatusOk : JobStatus → Job → Type 0
StatusOk pending j =
    (j.claimed_by ≡ none)
    × (j.lease_expires_at ≡ none)
    × ((j.attempts ≡ 0) ⊎ (j.attempts < j.max_attempts))
StatusOk running j =
    (is_some j.claimed_by ≡ true) × (is_some j.lease_expires_at ≡ true) × (0 < j.attempts)
StatusOk succeeded j = (j.claimed_by ≡ none) × (j.lease_expires_at ≡ none)
StatusOk failed j =
    (j.claimed_by ≡ none) × (j.lease_expires_at ≡ none) × (j.max_attempts ≤ j.attempts)

abbrev pub RowOk : Job → Type 0
RowOk j = StatusOk j.status j

abbrev pub Apart : Job → Job → Type 0
Apart a b = conflict a b ≡ false

-- Rows are consistent, and no two share an id, or a job type and an idempotency key.
pub record IsValid (jobs : List Job) : Type 0 where
  pub rows : All RowOk jobs
  pub apart : Pairwise Apart jobs

-- A change that keeps the columns of both unique indexes.
abbrev KeepsKeys : (Job → Job) → Type 0
KeepsKeys f =
    (j : Job)
    → ((f j).id ≡ j.id)
      × ((f j).job_type ≡ j.job_type)
      × ((f j).idempotency_key ≡ j.idempotency_key)

conflict-changed :
    (test : Job → Bool) (f : Job → Job)
    → KeepsKeys f
    → (a b : Job) → Apart a b
    → Apart (changed test f a) (changed test f b)
unfolding conflict
conflict-changed test f keep a b h = ground (arith, keep a, keep b)

update-IsValid :
    (test : Job → Bool) (f : Job → Job) (jobs : List Job)
    → KeepsKeys f
    → ((j : Job) → test j ≡ true → RowOk j → RowOk (f j))
    → IsValid jobs
    → IsValid (update_where test f jobs)
update-IsValid test f jobs keys keep v = record {
  rows = All-update_where RowOk test f jobs keep v.rows;
  apart = Pairwise-update_where Apart test f jobs (conflict-changed test f keys) v.apart;
}

claimed-keys : (w : String) (now lease : ℕ) → KeepsKeys (claimed w now lease)
unfolding claimed
claimed-keys w now lease j = (refl, refl, refl)

claimed-RowOk : (w : String) (now lease : ℕ) (j : Job) → RowOk (claimed w now lease j)
unfolding claimed
claimed-RowOk w now lease j = (refl, refl, omega arith)

claim_update :
    (test : Job → Bool) (w : String) (now lease : ℕ) (jobs : List Job)
    → IsValid jobs
    → IsValid (update_where test (claimed w now lease) jobs)
claim_update test w now lease jobs v =
    update-IsValid test (claimed w now lease) jobs (claimed-keys w now lease)
      (λ j e h. claimed-RowOk w now lease j) v

enqueue-IsValid :
    (n : NewJob) (now : ℕ) (jobs : List Job)
    → IsValid jobs
    → IsValid (kept jobs (enqueue n now jobs))
unfolding enqueue
enqueue-IsValid n now jobs v =
    elim (Option-cases (first_where (λ j. conflict j (new_row n now)) jobs)) [
      | inl e ↦
          rw (e, enqueue, kept)
            (record {
              rows =
                  All-append RowOk jobs (new_row n now ∷ []) v.rows
                    ((unfold new_row in (refl, refl, inl refl)), tt);
              apart =
                  Pairwise-append_one Apart jobs (new_row n now) v.apart
                    (first_where-none _ jobs e);
            })
      | inr (j, e) ↦ rw (e, enqueue, kept) v
    ]

claim_postgres-IsValid :
    (locked : List ℕ) (w : String) (now lease : ℕ) (jobs : List Job)
    → IsValid jobs
    → IsValid (claim_postgres locked w now lease jobs).1
unfolding claim_postgres
claim_postgres-IsValid locked w now lease jobs v =
    elim (Option-cases (next_job (free_and locked now) jobs)) [
      | inl e ↦ rw (e, claim_postgres) v
      | inr (j, e) ↦ rw (e, claim_postgres) (claim_update (has_id j.id) w now lease jobs v)
    ]

claim_if_eligible-IsValid :
    (i : ℕ) (w : String) (now lease : ℕ) (jobs : List Job)
    → IsValid jobs
    → IsValid (claim_if_eligible i w now lease jobs).1
unfolding claim_if_eligible
claim_if_eligible-IsValid i w now lease jobs v =
    elim (Option-cases (first_where (λ j. has_id i j && eligible now j) jobs)) [
      | inl e ↦ rw (e, claim_if_eligible) v
      | inr (j, e) ↦
          rw (e, claim_if_eligible)
            (claim_update (λ j. has_id i j && eligible now j) w now lease jobs v)
    ]

claim_portable-IsValid :
    (seen : List Job) (w : String) (now lease : ℕ) (jobs : List Job)
    → IsValid jobs
    → IsValid (claim_portable seen w now lease jobs).1
unfolding claim_portable
claim_portable-IsValid seen w now lease jobs v =
    elim (Option-cases (next_job (eligible now) seen)) [
      | inl e ↦ rw (e, claim_portable) v
      | inr (j, e) ↦ rw (e, claim_portable) (claim_if_eligible-IsValid j.id w now lease jobs v)
    ]

touch-IsValid :
    (i : ℕ) (w : String) (now lease : ℕ) (jobs : List Job)
    → IsValid jobs
    → IsValid (touch_lease i w now lease jobs)
unfolding touch_lease
touch-IsValid i w now lease jobs v =
    update-IsValid (held_by i w) _ jobs (λ j. (refl, refl, refl)) (λ j e h. ground arith) v

mark_succeeded-IsValid :
    (i now : ℕ) (jobs : List Job) → IsValid jobs → IsValid (mark_succeeded i now jobs)
unfolding mark_succeeded
mark_succeeded-IsValid i now jobs v =
    update-IsValid (has_id i) _ jobs (λ j. (refl, refl, refl)) (λ j e h. (refl, refl)) v

failed_row-keys : (error : String) (now delay : ℕ) → KeepsKeys (failed_row error now delay)
unfolding failed_row
failed_row-keys error now delay j = ground arith

failed_row-RowOk : (error : String) (now delay : ℕ) (j : Job) → RowOk (failed_row error now delay j)
unfolding failed_row
failed_row-RowOk error now delay j = elim (Bool-cases (leb j.max_attempts j.attempts)) [
  | inl e ↦ rw e (refl, refl, leb→le _ _ e)
  | inr e ↦ rw e (refl, refl, inr (ground arith))
]

mark_failed-IsValid :
    (i : ℕ) (error : String) (now delay : ℕ) (jobs : List Job)
    → IsValid jobs
    → IsValid (mark_failed i error now delay jobs).1
unfolding mark_failed
mark_failed-IsValid i error now delay jobs v = elim (Option-cases (first_where (has_id i) jobs)) [
  | inl e ↦ rw (e, mark_failed) v
  | inr (j, e) ↦
      rw (e, mark_failed)
        (update-IsValid (has_id i) (failed_row error now delay) jobs
          (failed_row-keys error now delay) (λ r p h. failed_row-RowOk error now delay r) v)
]

apply-IsValid : (o : Op) (jobs : List Job) → IsValid jobs → IsValid (apply o jobs)
unfolding apply
apply-IsValid (add n now) jobs v = enqueue-IsValid n now jobs v
apply-IsValid (claim locked w now lease) jobs v = claim_postgres-IsValid locked w now lease jobs v
apply-IsValid (claim_old seen w now lease) jobs v = claim_portable-IsValid seen w now lease jobs v
apply-IsValid (touch i w now lease) jobs v = touch-IsValid i w now lease jobs v
apply-IsValid (succeed i now) jobs v = mark_succeeded-IsValid i now jobs v
apply-IsValid (fail i error now delay) jobs v = mark_failed-IsValid i error now delay jobs v

-- From a valid table, after any operations of any workers in any order: no two rows share an id, or
-- a job type and an idempotency key; a running row has an owner, a lease and at least one attempt,
-- any other row has neither owner nor lease; a pending row has not used up its attempts, or was not
-- yet claimed; and a failed row has used them up.
pub run-IsValid : (ops : List Op) (jobs : List Job) → IsValid jobs → IsValid (run ops jobs)
unfolding run
run-IsValid [] jobs v = v
run-IsValid (o ∷ ops) jobs v = run-IsValid ops (apply o jobs) (apply-IsValid o jobs v)
