-- ===== src/Storage/Jobs/Held.antt =====
-- A lease keeps a job to one worker: src/myloware/storage/repositories.py, `claim_next_async` and
-- `touch_lease_async` against every other operation.
use mathlib.Core.Bool.{false≢true}
use mathlib.Core.Path.{subst}
use mylo_ware.Common.{
  ℕ, ◌+◌, ◌<◌, ◌≤◌, String, ◌≡◌, refl, sym, ◌∙◌, inl, inr, true, false, ◌&&◌, Option, none, some,
  List, [], ◌∷◌, arith, Bool-cases, Option-cases, All, Any, ◌==◌, All-append,
}
use mylo_ware.Common.Rows.{update_where, first_where, All-update_where}
use mylo_ware.Storage.Jobs.{
  Job, running, NewJob, new_row, conflict, enqueue, eligible, next_job, claimed, has_id, held_by,
  free_and, claim_postgres, claim_if_eligible, claim_portable, touch_lease, mark_succeeded,
  mark_failed, failed_row,
}
use mylo_ware.Storage.Jobs.Order.{Outcome, IsNext, next_job_lem}
use mylo_ware.Storage.Jobs.Trace.{Op, add, claim, claim_old, touch, succeed, fail, kept, apply, run}

abbrev LeaseFrom : ℕ → Option ℕ → Type 0
LeaseFrom e none = ⊥
LeaseFrom e (some t) = e ≤ t

-- If the row has the id `i`, then `w` runs it, under a lease that ends no sooner than `e`.
abbrev pub HeldAt : ℕ → String → ℕ → Job → Type 0
HeldAt i w e j =
    has_id i j ≡ true
    → (j.status ≡ running) × (j.claimed_by ≡ some w) × LeaseFrom e j.lease_expires_at

-- An operation on other jobs, or at a time before `e`; a renewal by the job's owner does not
-- shorten the lease below `e`. New rows have fresh ids.
abbrev pub Spares : ℕ → ℕ → Op → Type 0
Spares i e (add n now) = (n.id == i) ≡ false
Spares i e (claim locked w now lease) = now < e
Spares i e (claim_old seen w now lease) = now < e
Spares i e (touch k w now lease) = (k == i) ≡ true → e ≤ now + lease
Spares i e (succeed k now) = (k == i) ≡ false
Spares i e (fail k error now delay) = (k == i) ≡ false

module _ (i : ℕ) (w : String) (e : ℕ) where
  held-not_eligible :
      (now : ℕ) (j : Job) → now < e → HeldAt i w e j → (has_id i j && eligible now j) ≡ false
  unfolding eligible
  held-not_eligible now j h held = elim (Bool-cases (has_id i j)) [
    | inl own ↦ ground (arith, held own)
    | inr other ↦ rw other
  ]

  All-Any :
      (jobs : List Job) (j : Job) → All (HeldAt i w e) jobs → Any (λ k. k ≡ j) jobs → HeldAt i w e j
  All-Any [] j all any = elim any [ ]
  All-Any (k ∷ jobs) j all (inl p) = subst (HeldAt i w e) p all.0
  All-Any (k ∷ jobs) j all (inr p) = All-Any jobs j all.1 p

  -- A claim before `e` picks another job.
  claim_other :
      (locked : List ℕ) (now : ℕ) (jobs : List Job) (j : Job)
      → now < e
      → All (HeldAt i w e) jobs
      → IsNext (free_and locked now) jobs j
      → (j.id == i) ≡ false
  claim_other locked now jobs j h all next =
      ground (arith, held-not_eligible now j h (All-Any jobs j all next.2), next.0)

  other_row-HeldAt :
      (k : ℕ) (f : Job → Job) (jobs : List Job)
      → (k == i) ≡ false
      → ((j : Job) → (f j).id ≡ j.id)
      → All (HeldAt i w e) jobs
      → All (HeldAt i w e) (update_where (has_id k) f jobs)
  other_row-HeldAt k f jobs h same all =
      All-update_where (HeldAt i w e) (has_id k) f jobs
        (λ j p held own. absurd (ground (arith, same j))) all

  claim_postgres-HeldAt :
      (locked : List ℕ) (w' : String) (now lease : ℕ) (jobs : List Job)
      → now < e
      → All (HeldAt i w e) jobs
      → All (HeldAt i w e) (claim_postgres locked w' now lease jobs).1
  unfolding claim_postgres
  claim_postgres-HeldAt locked w' now lease jobs h all =
      elim (Option-cases (next_job (free_and locked now) jobs)) [
        | inl p ↦ rw (p, claim_postgres) all
        | inr (j, p) ↦
            rw (p, claim_postgres)
              (other_row-HeldAt j.id (claimed w' now lease) jobs
                (claim_other locked now jobs j h all (
                  subst (Outcome (free_and locked now) jobs) p
                    (next_job_lem (free_and locked now) jobs)))
                (λ j. unfold claimed in refl) all)
      ]

  claim_if_eligible-HeldAt :
      (k : ℕ) (w' : String) (now lease : ℕ) (jobs : List Job)
      → now < e
      → All (HeldAt i w e) jobs
      → All (HeldAt i w e) (claim_if_eligible k w' now lease jobs).1
  unfolding claim_if_eligible claimed
  claim_if_eligible-HeldAt k w' now lease jobs h all =
      elim (Option-cases (first_where (λ j. has_id k j && eligible now j) jobs)) [
        | inl p ↦ rw (p, claim_if_eligible) all
        | inr (j, p) ↦
            rw (p, claim_if_eligible)
              (All-update_where (HeldAt i w e) _ (claimed w' now lease) jobs
                (λ r q held own. absurd (ground (arith, held-not_eligible now r h held))) all)
      ]

  claim_portable-HeldAt :
      (seen : List Job) (w' : String) (now lease : ℕ) (jobs : List Job)
      → now < e
      → All (HeldAt i w e) jobs
      → All (HeldAt i w e) (claim_portable seen w' now lease jobs).1
  unfolding claim_portable
  claim_portable-HeldAt seen w' now lease jobs h all =
      elim (Option-cases (next_job (eligible now) seen)) [
        | inl p ↦ rw (p, claim_portable) all
        | inr (j, p) ↦
            rw (p, claim_portable) (claim_if_eligible-HeldAt j.id w' now lease jobs h all)
      ]

  enqueue-HeldAt :
      (n : NewJob) (now : ℕ) (jobs : List Job)
      → (n.id == i) ≡ false
      → All (HeldAt i w e) jobs
      → All (HeldAt i w e) (kept jobs (enqueue n now jobs))
  unfolding enqueue new_row
  enqueue-HeldAt n now jobs h all =
      elim (Option-cases (first_where (λ j. conflict j (new_row n now)) jobs)) [
        | inl p ↦
            rw (p, enqueue, kept)
              (All-append (HeldAt i w e) jobs (new_row n now ∷ []) all
                ((λ own. absurd (false≢true (sym h ∙ own))), tt))
        | inr (j, p) ↦ rw (p, enqueue, kept) all
      ]

  touch-HeldAt :
      (k : ℕ) (w' : String) (now lease : ℕ) (jobs : List Job)
      → ((k == i) ≡ true → e ≤ now + lease)
      → All (HeldAt i w e) jobs
      → All (HeldAt i w e) (touch_lease k w' now lease jobs)
  unfolding touch_lease
  touch-HeldAt k w' now lease jobs h all =
      All-update_where (HeldAt i w e) (held_by k w') _ jobs
        (λ j p held own. ((held own).0, (held own).1, h (ground arith))) all

  mark_failed-HeldAt :
      (k : ℕ) (error : String) (now delay : ℕ) (jobs : List Job)
      → (k == i) ≡ false
      → All (HeldAt i w e) jobs
      → All (HeldAt i w e) (mark_failed k error now delay jobs).1
  unfolding mark_failed failed_row
  mark_failed-HeldAt k error now delay jobs h all =
      elim (Option-cases (first_where (has_id k) jobs)) [
        | inl p ↦ rw (p, mark_failed) all
        | inr (j, p) ↦
            rw (p, mark_failed)
              (other_row-HeldAt k (failed_row error now delay) jobs h (λ j. ground arith) all)
      ]

  apply-HeldAt :
      (o : Op) (jobs : List Job)
      → Spares i e o
      → All (HeldAt i w e) jobs
      → All (HeldAt i w e) (apply o jobs)
  unfolding apply mark_succeeded
  apply-HeldAt (add n now) jobs h all = enqueue-HeldAt n now jobs h all
  apply-HeldAt (claim locked w' now lease) jobs h all =
      claim_postgres-HeldAt locked w' now lease jobs h all
  apply-HeldAt (claim_old seen w' now lease) jobs h all =
      claim_portable-HeldAt seen w' now lease jobs h all
  apply-HeldAt (touch k w' now lease) jobs h all = touch-HeldAt k w' now lease jobs h all
  apply-HeldAt (succeed k now) jobs h all = other_row-HeldAt k _ jobs h (λ j. refl) all
  apply-HeldAt (fail k error now delay) jobs h all = mark_failed-HeldAt k error now delay jobs h all

  run-HeldAt :
      (ops : List Op) (jobs : List Job)
      → All (Spares i e) ops
      → All (HeldAt i w e) jobs
      → All (HeldAt i w e) (run ops jobs)
  unfolding run
  run-HeldAt [] jobs h all = all
  run-HeldAt (o ∷ ops) jobs h all = run-HeldAt ops (apply o jobs) h.1 (apply-HeldAt o jobs h.0 all)

claimed-HeldAt :
    (i : ℕ) (w : String) (now lease : ℕ) (jobs : List Job)
    → All (HeldAt i w (now + lease)) (update_where (has_id i) (claimed w now lease) jobs)
unfolding update_where claimed
claimed-HeldAt i w now lease [] = tt
claimed-HeldAt i w now lease (j ∷ jobs) = (ground arith, claimed-HeldAt i w now lease jobs)

claim-HeldAt :
    (locked : List ℕ) (w : String) (now lease : ℕ) (jobs : List Job) {j' : Job} {jobs' : List Job}
    → claim_postgres locked w now lease jobs ≡ (some j', jobs')
    → All (HeldAt j'.id w (now + lease)) jobs'
unfolding claim_postgres
claim-HeldAt locked w now lease jobs {j'} {jobs'} h =
    elim (Option-cases (next_job (free_and locked now) jobs)) [
      | inl p ↦ absurd (ground (arith, p, h))
      | inr (j, p) ↦
          let same : j'.id ≡ j.id = unfold claimed in ground (arith, p, h) in
          let left : jobs' ≡ update_where (has_id j.id) (claimed w now lease) jobs =
            ground (arith, p, h) in
          rw (same, left) (claimed-HeldAt j.id w now lease jobs)
    ]

claim_postgres_other :
    (i : ℕ) (w : String) (e : ℕ) (locked : List ℕ) (w' : String) (t lease : ℕ) (jobs : List Job)
    {k : Job}
    → t < e
    → All (HeldAt i w e) jobs
    → (claim_postgres locked w' t lease jobs).0 ≡ some k
    → (k.id == i) ≡ false
unfolding claim_postgres claimed
claim_postgres_other i w e locked w' t lease jobs {k} h all c =
    elim (Option-cases (next_job (free_and locked t) jobs)) [
      | inl p ↦ absurd (ground (arith, p, c))
      | inr (j, p) ↦
          let same : k.id ≡ j.id = ground (arith, p, c) in
          rw same (
            claim_other i w e locked t jobs j h all
              (subst (Outcome (free_and locked t) jobs) p (next_job_lem (free_and locked t) jobs)))
    ]

-- After a worker's claim, and any further operations by anyone that report no outcome of that job,
-- claim only before its lease ends, do not shorten the lease, and add only rows with other ids: the
-- job still runs under that worker and that lease, and no claim before the lease ends returns the
-- job.
pub lease_excludes :
    (locked : List ℕ) (w : String) (now lease : ℕ) (jobs : List Job) {j' : Job} {jobs' : List Job}
    (ops : List Op) (locked' : List ℕ) (w' : String) (t lease' : ℕ) {k : Job}
    → claim_postgres locked w now lease jobs ≡ (some j', jobs')
    → All (Spares j'.id (now + lease)) ops
    → t < now + lease
    → (claim_postgres locked' w' t lease' (run ops jobs')).0 ≡ some k
    → All (HeldAt j'.id w (now + lease)) (run ops jobs') × ((k.id == j'.id) ≡ false)
lease_excludes locked w now lease jobs {j'} {jobs'} ops locked' w' t lease' h spares lt c =
    let held =
      run-HeldAt j'.id w (now + lease) ops jobs' spares (claim-HeldAt locked w now lease jobs h) in
    (held, claim_postgres_other j'.id w (now + lease) locked' w' t lease' (run ops jobs') lt held c)
