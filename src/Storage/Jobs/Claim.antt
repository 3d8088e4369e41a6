-- ===== src/Storage/Jobs/Claim.antt =====
-- What the claims of src/myloware/storage/repositories.py (`claim_next_async`) promise.
use mylo_ware.Common.{ℕ, String, ◌≡◌, refl, false, Option, none, some, List, All}
use mylo_ware.Common.Rows.{update_where}
use mylo_ware.Storage.Jobs.{Job, next_job, claimed, has_id, free_and, claim_postgres}
use mylo_ware.Storage.Jobs.Order.{Outcome, IsNext, next_job_lem}

-- What a claim gave back and left behind, for a SELECT that returned `o`.
abbrev pub Claims : List ℕ → String → ℕ → ℕ → List Job → Option Job × List Job → Type 0
Claims locked w now lease jobs (none, jobs') =
    (jobs' ≡ jobs) × All (λ k. free_and locked now k ≡ false) jobs
Claims locked w now lease jobs (some j', jobs') =
    (j : Job) × (j' ≡ claimed w now lease j)
    × (jobs' ≡ update_where (has_id j.id) (claimed w now lease) jobs)
    × IsNext (free_and locked now) jobs j

claim_outcome :
    (locked : List ℕ) (w : String) (now lease : ℕ) (jobs : List Job) (o : Option Job)
    → Outcome (free_and locked now) jobs o
    → Claims locked w now lease jobs (elim o [
      | none ↦ (none, jobs)
      | some j ↦
          (some (claimed w now lease j), update_where (has_id j.id) (claimed w now lease) jobs)
    ])
claim_outcome locked w now lease jobs none h = (refl, h)
claim_outcome locked w now lease jobs (some j) h = (j, refl, refl, h)

-- On Postgres a claim returns nothing, and changes nothing, exactly where every row is locked by
-- another transaction or not eligible; else it returns a free eligible row before which, by
-- `available_at` and then `created_at`, there is no other, marked as claimed, and it changes the
-- rows of that id alone.
pub claim_postgres_least :
    (locked : List ℕ) (w : String) (now lease : ℕ) (jobs : List Job)
    → Claims locked w now lease jobs (claim_postgres locked w now lease jobs)
unfolding claim_postgres
claim_postgres_least locked w now lease jobs =
    claim_outcome locked w now lease jobs (next_job (free_and locked now) jobs)
      (next_job_lem (free_and locked now) jobs)
