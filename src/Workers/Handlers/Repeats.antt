-- ===== src/Workers/Handlers/Repeats.antt =====
-- Jobs of src/myloware/workers/handlers.py that find their work done: a callback that is delivered
-- again or reports progress only, a poll, a start or an approval of a run that has moved on.
use mylo_ware.Common.{
  ℕ, String, ◌≡◌, refl, ap, ◌∙◌, true, false, some, ◌⊎◌, inl, inr, List, arith, str_eq, any,
  any-same,
}
use mylo_ware.Common.Json.{Json, Fields, truthy}
use mylo_ware.Common.Rows.{first_where}
use mylo_ware.Storage.Jobs.{Job, has_id, mark_succeeded}
use mylo_ware.Storage.Runs
use mylo_ware.Storage.Runs.{Run}
use mylo_ware.Storage.Runs.Status.{RunStatus}
use mylo_ware.Storage.Artifacts.{Artifact, video_clip, get_by_run}
use mylo_ware.Workers.JobTypes
use mylo_ware.Workers.Session.{Tables, Session, go, done, ◌>>=◌, fresh, run_handler}
use mylo_ware.Workers.Process.{Environment, finished, process_one_job, settle, beats}
use mylo_ware.Workers.Handlers.Services.{
  Services, is_status, is_terminal, get_run, get_artifacts, has_meta,
}
use mylo_ware.Workers.Handlers.SoraWebhook
use mylo_ware.Workers.Handlers.SoraWebhook.{
  Callback, read_callback, is_failure, is_completion, complete_video, sora_callback, webhook_sora,
}
use mylo_ware.Workers.Handlers.SoraPoll.{sora_poll}
use mylo_ware.Workers.Handlers.Remotion.{remotion_poll}
use mylo_ware.Workers.Handlers.Resume.{run_execute}
use mylo_ware.Workers.Handlers.Clips.{stored_clip, has_task, any-get_by_run, has_meta-has_task}
use mylo_ware.Workers.Handlers.Dispatch.{handle_job, handler}

-- The run is there, in another status.
abbrev pub Elsewhere : RunStatus → ℕ → Tables → Type 0
Elsewhere st i t = (r : Run) × (Runs.get i t.runs ≡ some r) × (is_status st r ≡ false)

-- The callback of Sora reports no failure, and either no finished video, or one whose clip is stored.
pub record SeenClip (sv : Services) (i : ℕ) (payload : Fields) (t : Tables) : Type 0 where
  pub callback : Callback
  pub reads : read_callback sv payload ≡ inr callback
  pub no_failure : is_failure sv callback ≡ false
  pub seen :
      (is_completion sv callback ≡ false)
      ⊎ ((task : String) × (callback.task_id ≡ some (Json.str task))
          × (str_eq task "" ≡ false)
          × (stored_clip i task t.artifacts ≡ true))

-- The job has nothing left to do.
pub data Stale (sv : Services) (j : Job) (i : ℕ) (t : Tables) : Type 0 where
  started_run : j.job_type ≡ JobTypes.run_execute → Elsewhere RunStatus.pending i t → Stale sv j i t
  moved_on :
      j.job_type ≡ JobTypes.sora_poll
      → Elsewhere RunStatus.awaiting_video_generation i t
      → Stale sv j i t
  rendered_run :
      j.job_type ≡ JobTypes.remotion_poll → Elsewhere RunStatus.awaiting_render i t → Stale sv j i t
  seen_clip : j.job_type ≡ JobTypes.webhook_sora → SeenClip sv i j.payload t → Stale sv j i t

module _ (sv : Services) where
  run_execute_idle :
      (i : ℕ) (payload : Fields) (t : Tables)
      → Elsewhere RunStatus.pending i t
      → run_execute sv (some i) payload (fresh t) ≡ (go tt, fresh t)
  unfolding run_execute get_run ◌>>=◌ fresh
  run_execute_idle i payload t (r, h, w) = ground (arith, h, w)

  sora_poll_idle :
      (i : ℕ) (t : Tables)
      → Elsewhere RunStatus.awaiting_video_generation i t
      → sora_poll sv (some i) (fresh t) ≡ (go tt, fresh t)
  unfolding sora_poll get_run ◌>>=◌ fresh is_terminal
  sora_poll_idle i t (r, h, w) = ground (arith, h, w)

  remotion_poll_idle :
      (i : ℕ) (t : Tables)
      → Elsewhere RunStatus.awaiting_render i t
      → remotion_poll sv (some i) (fresh t) ≡ (go tt, fresh t)
  unfolding remotion_poll get_run ◌>>=◌ fresh is_terminal
  remotion_poll_idle i t (r, h, w) = ground (arith, h, w)

  clip_is_stored :
      (i : ℕ) (task : String) (artifacts : List Artifact)
      → str_eq task "" ≡ false
      → stored_clip i task artifacts ≡ true
      → SoraWebhook.is_stored sv (some (Json.str task)) (get_by_run i artifacts) ≡ true
  unfolding SoraWebhook.is_stored truthy stored_clip
  clip_is_stored i task artifacts filled h =
      let found : any (has_meta sv video_clip "task_id" (Json.str task)) (get_by_run i artifacts)
          ≡ true =
        any-same (has_meta sv video_clip "task_id" (Json.str task)) (has_task task)
          (get_by_run i artifacts) (λ a. has_meta-has_task sv task a filled)
        ∙ any-get_by_run (has_task task) i artifacts
        ∙ h in
      ground (arith, found, filled)

  complete_video_idle :
      (i : ℕ) (c : Callback) (t : Tables)
      → SoraWebhook.is_stored sv c.task_id (get_by_run i t.artifacts) ≡ true
      → complete_video sv i c (fresh t) ≡ (go tt, fresh t)
  unfolding complete_video get_artifacts ◌>>=◌ fresh
  complete_video_idle i c t h = rw (h, complete_video) refl

  webhook_sora_idle :
      (i : ℕ) (payload : Fields) (t : Tables)
      → SeenClip sv i payload t
      → webhook_sora sv (some i) payload (fresh t) ≡ (go tt, fresh t)
  unfolding webhook_sora ◌>>=◌ sora_callback
  webhook_sora_idle i payload t h = elim h.seen [
    | inl progress ↦ ground (arith, h.reads, h.no_failure, progress)
    | inr (task, same, filled, found) ↦
        let known : SoraWebhook.is_stored sv h.callback.task_id (get_by_run i t.artifacts) ≡ true =
          ap (λ v. SoraWebhook.is_stored sv v (get_by_run i t.artifacts)) same
          ∙ clip_is_stored i task t.artifacts filled found in
        ground (arith, h.reads, h.no_failure, complete_video_idle i h.callback t known)
  ]

  handle_job_idle :
      (j : Job) (i : ℕ) (t : Tables)
      → j.run_id ≡ some i
      → Stale sv j i t
      → handle_job sv j (fresh t) ≡ (go tt, fresh t)
  unfolding handle_job
  handle_job_idle j i t run (started_run e h) =
      rw (e, run, handle_job) (run_execute_idle i j.payload t h)
  handle_job_idle j i t run (moved_on e h) = rw (e, run, handle_job) (sora_poll_idle i t h)
  handle_job_idle j i t run (rendered_run e h) = rw (e, run, handle_job) (remotion_poll_idle i t h)
  handle_job_idle j i t run (seen_clip e h) =
      rw (e, run, handle_job) (webhook_sora_idle i j.payload t h)

-- The jobs do not matter to that.
still :
    (sv : Services) (j : Job) (i : ℕ) (t : Tables) (jobs : List Job)
    → Stale sv j i t
    → Stale sv j i (record t { jobs = jobs })
still sv j i t jobs (started_run e h) = started_run e h
still sv j i t jobs (moved_on e h) = moved_on e h
still sv j i t jobs (rendered_run e h) = rendered_run e h
still sv j i t jobs (seen_clip e h) =
    seen_clip e
      (record { callback = h.callback; reads = h.reads; no_failure = h.no_failure; seen = h.seen })

handler_done :
    (sv : Services) (j : Job) (s : Session)
    → handle_job sv j s ≡ (go tt, s)
    → handler sv j s ≡ (done, s)
unfolding handler run_handler
handler_done sv j s h = rw (h, handler) refl

-- A job with nothing left to do (a start of a run that is not pending, a poll of a run that does not
-- wait for it, a callback of Sora that is no failure and either reports no finished video or one
-- whose clip is stored) is done, and changes nothing but the table of jobs: it succeeds.
pub idle_job_succeeds :
    (sv : Services) (env : Environment) (j : Job) (i : ℕ) (t : Tables)
    → first_where (has_id j.id) t.jobs ≡ some j
    → j.run_id ≡ some i
    → Stale sv j i t
    → process_one_job (handler sv) env j.id t
      ≡ finished (record t {
        jobs =
            mark_succeeded j.id env.now (beats j.id env.worker_id env.lease env.beat_times t.jobs);
      })
unfolding process_one_job settle fresh
idle_job_succeeds sv env j i t found run stale =
    let jobs = beats j.id env.worker_id env.lease env.beat_times t.jobs in
    let before : Tables = record t { jobs = jobs } in
    let nothing =
      handler_done sv j (fresh before)
        (handle_job_idle sv j i before run (still sv j i t jobs stale)) in
    ground (arith, found, nothing)
