-- ===== src/Workers/Handlers/Outcomes.antt =====
-- How the handlers of src/myloware/workers/handlers.py conclude, and what the worker makes of it.
use mylo_ware.Common.{
  ℕ, ◌+◌, ◌*◌, ◌<◌, ◌≤◌, String, ◌<>◌, ◌≡◌, refl, ap, ◌∙◌, true, false, none, some, inl, inr, [],
  ◌∷◌, arith, le→leb, ◌==◌, if◌then◌else◌, Bool-cases,
}
use mylo_ware.Common.Json.{Fields}
use mylo_ware.Storage.Jobs.{Job, NewJob, enqueue, mark_failed}
use mylo_ware.Storage.Runs
use mylo_ware.Storage.Runs.{Run, change_all, change, stamp, Change}
use mylo_ware.Storage.Runs.Update.{update_lem}
use mylo_ware.Storage.Runs.Status
use mylo_ware.Storage.Runs.Status.{RunStatus}
use mylo_ware.Workers.JobTypes
use mylo_ware.Workers.JobTypes.{idempotency_resume_videos}
use mylo_ware.Workers.Session.{
  Tables, Session, done, raised, ◌>>=◌, fresh, run_handler, write, commit, try_enqueue,
}
use mylo_ware.Workers.Process.{Environment, finished, crashed, settle}
use mylo_ware.Workers.Handlers.Services.{Services, is_status, update_run, fail_run, enqueue_resume}
use mylo_ware.Workers.Handlers.SoraWebhook.{
  Callback, is_failure, error_msg, sora_callback, clips_ready,
}
use mylo_ware.Workers.Handlers.SoraPoll.{conclude, waiting_reason, second}

-- The job that resumes the run after its videos.
abbrev resume_job : Services → ℕ → NewJob
resume_job sv i = record {
  id = sv.job_id;
  job_type = JobTypes.resume_videos;
  idempotency_key = some (idempotency_resume_videos sv.uuid_text i);
  run_id = some i;
  payload = some Fields.end;
  max_attempts = sv.job_max_attempts;
  available_at = none;
}

-- The last clip of a run is lost when its resume job exists already: the refused insert leaves a
-- session that needs a rollback. After a callback, the worker cannot mark the job as succeeded, and
-- it ends in the exception of the session, with only what was committed before the clip. The poll
-- ends the same way at its commit.
pub duplicate_resume_loses_clip :
    (sv : Services) (env : Environment) (j : Job) (i : ℕ) (run : Run) (expected ready : ℕ)
    (s : Session)
    → s.broken ≡ none
    → sv.disable_background_workflows ≡ false
    → is_status RunStatus.failed run ≡ false
    → expected ≤ ready
    → enqueue (resume_job sv i) sv.now s.tables.jobs ≡ none
    → (settle env j
          (run_handler (clips_ready sv i run) s).0
          (run_handler (clips_ready sv i run) s).1
        ≡ crashed sv.rollback_message s.committed)
      × (run_handler (conclude sv i run expected ready none) s ≡ (
        raised sv.rollback_message,
        record s { tables = s.committed; broken = some sv.rollback_message; in_transaction = true },
      ))
unfolding settle run_handler clips_ready conclude enqueue_resume update_run commit ◌>>=◌ write
    try_enqueue
duplicate_resume_loses_clip sv env j i run expected ready s ok on live enough dup = (
  ground (arith, ok, on, live, dup),
  rw (le→leb expected ready enough, conclude)
      (elim (Bool-cases (is_status RunStatus.awaiting_video_generation run)) [
        | inl e ↦ rw e (ground (arith, ok, on, dup))
        | inr e ↦ rw e (ground (arith, ok, on, dup))
      ]),
)

-- A poll that finds too few clips and no failed task commits what it stored and asks for another
-- run, after the poll interval and ten seconds: the worker keeps the clips, and puts the reason on
-- record with the job.
pub waiting_poll_keeps_clips :
    (sv : Services) (env : Environment) (j : Job) (i : ℕ) (run : Run) (expected ready : ℕ)
    (s : Session)
    → s.broken ≡ none
    → ready < expected
    → settle env j
        (run_handler (conclude sv i run expected ready none) s).0
        (run_handler (conclude sv i run expected ready none) s).1
      ≡ finished (record s.tables {
        jobs =
            (mark_failed j.id
              (waiting_reason sv ready expected)
              env.now
              (sv.job_poll_interval + 10 * second)
              s.tables.jobs).1;
      })
unfolding settle run_handler conclude commit ◌>>=◌
waiting_poll_keeps_clips sv env j i run expected ready s ok few = ground (arith, ok, few)

-- The run as a failure leaves it.
abbrev pub failed_run : Services → String → Run → Run
failed_run sv error r = record r {
  status = RunStatus.failed;
  error = some error;
  updated_at = some sv.now;
}

fail_changes :
    (sv : Services) (error : String) (r : Run)
    → stamp sv.now
        (change_all
          (Change.status_text (Runs.Status.value RunStatus.failed)
            ∷ Change.error_is (some error)
            ∷ [])
          r).0
      ≡ failed_run sv error r
unfolding stamp change_all change Runs.Status.normalize_status
fail_changes sv error r = refl

-- A callback of Sora that reports a failure fails its run, whatever the status of the run is, also
-- where it is over: the run gets the message of the callback as its error. The other runs, the
-- artifacts and the jobs stay as they are, and the handler returns.
pub failure_callback_fails_run :
    (sv : Services) (i k : ℕ) (c : Callback) (t : Tables) {r q : Run}
    → is_failure sv c ≡ true
    → Runs.get i t.runs ≡ some r
    → Runs.get k t.runs ≡ some q
    → let (o, s) = run_handler (sora_callback sv i c) (fresh t) in
      (o ≡ done)
      × (s.committed ≡ t)
      × (s.tables.artifacts ≡ t.artifacts)
      × (s.tables.jobs ≡ t.jobs)
      × (Runs.get k s.tables.runs
          ≡ some (if k == i then failed_run sv ("OpenAI Sora error: " <> error_msg sv c) q else q))
unfolding run_handler sora_callback fail_run update_run write fresh
failure_callback_fails_run sv i k c t {r} {q} fails h hk =
    let error = "OpenAI Sora error: " <> error_msg sv c in
    let (kept, back) =
      update_lem i k
        (Change.status_text (Runs.Status.value RunStatus.failed)
          ∷ Change.error_is (some error)
          ∷ [])
        sv.now t.runs {r = r} {q = q} h hk in
    rw (fails, sora_callback)
      (
        refl,
        refl,
        refl,
        refl,
        kept ∙ ap (λ x. some (if k == i then x else q)) (fail_changes sv error q),
      )
