-- ===== src/Tests/JobHandlers.antt =====
-- Jobs of src/myloware/workers/handlers.py on small tables.
use mylo_ware.Common.{ℕ, ◌≤◌, String, ◌≡◌, refl, ◌↔◌, true, none, some, [], ◌∷◌, All, arith}
use mylo_ware.Common.Json.{Json, Fields, Items}
use mylo_ware.Common.Rows.{first_where}
use mylo_ware.Storage.Jobs.{Job, conflict, enqueue, mark_succeeded}
use mylo_ware.Storage.Runs
use mylo_ware.Storage.Runs.{Run}
use mylo_ware.Storage.Runs.Status.{RunStatus}
use mylo_ware.Workers.Session.{Tables, Session, fresh, go, done, raised, run_handler}
use mylo_ware.Workers.Process.{finished, crashed, settle, process_one_job, beats}
use mylo_ware.Workers.Loop.{run_once, stored}
use mylo_ware.Workers.JobTypes.{idempotency_resume_videos}
use mylo_ware.Workers.Handlers.SoraPoll
use mylo_ware.Workers.Handlers.SoraPoll.{
  Poll, first_poll, waiting_reason, poll_tasks, task_percent, overall_progress, one_of, read_state,
}
use mylo_ware.Workers.Handlers.SoraPoll.Progress.{IsDone, overall_progress_le}
use mylo_ware.Workers.Handlers.SoraPoll.Finishes.{VideoReady, Went, poll_tasks-Finishes}
use mylo_ware.Workers.Handlers.SoraWebhook.{
  Callback, is_failure, error_msg, sora_callback, clips_ready,
}
use mylo_ware.Workers.Handlers.Clips.{OneClip, stored_clip}
use mylo_ware.Workers.Handlers.OneClipPoll.{Loop, first_poll-Loop}
use mylo_ware.Storage.Artifacts.{get_by_run}
use mylo_ware.Workers.Handlers.Dispatch.{handler}
use mylo_ware.Workers.Handlers.Dispatch.OneClip.{EngineKeeps, run_once-OneClip}
use mylo_ware.Workers.Handlers.Repeats.{moved_on, idle_job_succeeds}
use mylo_ware.Workers.Handlers.Outcomes.{
  failed_run, duplicate_resume_loses_clip, failure_callback_fails_run,
}
use mylo_ware.Workers.Handlers.Dispatch.Resumes.{with_engine, with_engine-EngineKeeps}
use mylo_ware.Tests.JobTable.{execute_job}
use mylo_ware.Tests.JobWorker.{at_time}
use mylo_ware.Tests.RunTable.{waiting_run, other_run}
use mylo_ware.Tests.JobServices.{
  complete, services, engine, gate_look, filming_run, callback_job, clip, clip_tables,
}

services-EngineKeeps : EngineKeeps services
services-EngineKeeps = record {
  run_workflow = λ i db t h. h;
  resume_after_videos = λ i t h. h;
  resume_after_render = λ i u t h. h;
  resume_hitl_gate = λ i g b c t h. h;
  invoke = λ i v t h. h;
}

run_once-OneClip_example : OneClip (
    stored clip_tables
      (run_once (handler (with_engine engine (λ i. gate_look) services)) (at_time 100) clip_tables))
run_once-OneClip_example =
    run_once-OneClip (with_engine engine (λ i. gate_look) services) (at_time 100) clip_tables
      (with_engine-EngineKeeps engine (λ i id answer t h. h) (λ i. gate_look) services
        services-EngineKeeps)
      (tt, tt)

abbrev half_way : Poll
half_way = record {
  existing = "t1" ∷ [];
  statuses = ("t2", record { status = "in_progress"; progress = some 40 }) ∷ [];
  completed_now = 1;
  failed_now = none;
}

abbrev average : ℕ
average = 70

overall_progress_le_example :
    (average ≤ 100) × ((average ≡ 100) ↔ All (IsDone half_way) ("t1" ∷ "t2" ∷ []))
overall_progress_le_example =
    overall_progress_le services half_way ("t1" ∷ "t2" ∷ []) {n = average}
      (unfold overall_progress in refl)

ready : (t : String) → VideoReady services 7 [] t
ready t = record {
  job = complete;
  uri = "file:///clip";
  url = "https://clip";
  retrieves = refl;
  completed = unfold read_state in refl;
  downloads = refl;
  transcodes = refl;
  filled = refl;
}

abbrev at_start : Poll
at_start = first_poll services (get_by_run 7 clip_tables.artifacts)

clip_tables-Loop : Loop 7 at_start (fresh clip_tables)
unfolding fresh
clip_tables-Loop = first_poll-Loop services 7 (fresh clip_tables) ((tt, tt), (tt, tt))

poll_tasks-Finishes_example :
    (p' : Poll) × (s' : Session) × (poll_tasks services 7 []
        ("t1" ∷ "t3" ∷ [])
        at_start
        (fresh clip_tables)
      ≡ (go p', s'))
    × Went at_start p' (fresh clip_tables) s'
    × OneClip s'.tables
    × All (λ t. stored_clip 7 t s'.tables.artifacts ≡ true) ("t1" ∷ "t3" ∷ [])
poll_tasks-Finishes_example =
    poll_tasks-Finishes services 7 [] ("t1" ∷ "t3" ∷ []) at_start (fresh clip_tables)
      (unfold fresh in refl) clip_tables-Loop (refl, (refl, tt)) (ready "t1", (ready "t3", tt))

abbrev poll_job : Job
poll_job = record execute_job { job_type = "sora.poll"; run_id = some 8 }

abbrev poll_tables : Tables
poll_tables = record clip_tables { jobs = poll_job ∷ [] }

idle_job_succeeds_example :
    process_one_job (handler services) (at_time 100) 1 poll_tables
    ≡ finished (record poll_tables {
      jobs = mark_succeeded 1 100 (beats 1 "w1" 60 (100 ∷ []) poll_tables.jobs);
    })
idle_job_succeeds_example =
    idle_job_succeeds services (at_time 100) poll_job 8 poll_tables (unfold first_where in refl)
      refl (moved_on refl (other_run, unfold Runs.get in refl, refl))

abbrev queued_resume : Job
queued_resume = record execute_job {
  id = 3;
  job_type = "langgraph.resume_after_videos";
  idempotency_key = some "resume_videos:run";
}

-- The callback has stored its clip, and has not committed.
abbrev before_commit : Session
before_commit = record (fresh poll_tables) {
  tables = record clip_tables { jobs = callback_job ∷ queued_resume ∷ [] };
}

duplicate_resume_loses_clip_example :
    (settle
        (at_time 100)
        callback_job
        (run_handler (clips_ready services 7 filming_run) before_commit).0
        (run_handler (clips_ready services 7 filming_run) before_commit).1
      ≡ crashed "rolled back" poll_tables)
    × (run_handler (SoraPoll.conclude services 7 filming_run 1 1 none) before_commit ≡ (
      raised "rolled back",
      record before_commit {
        tables = poll_tables;
        broken = some "rolled back";
        in_transaction = true;
      },
    ))
unfolding fresh first_where conflict
duplicate_resume_loses_clip_example =
    duplicate_resume_loses_clip services (at_time 100) callback_job 7 filming_run 1 1 before_commit
      refl refl refl (omega arith) (unfold enqueue idempotency_resume_videos in refl)

-- The run is complete when the failure comes.
abbrev complete_run : Run
complete_run = record waiting_run { status = RunStatus.completed }

abbrev complete_tables : Tables
complete_tables = record clip_tables { runs = complete_run ∷ [] }

abbrev failure : Callback
failure = record {
  code = some 500;
  state = none;
  status_msg = "no luck";
  task_id = some (Json.str "t1");
  event_type = none;
  video_index = 0;
  video_urls = Items.nil;
  metadata = Fields.end;
}

failure_callback_fails_run_example :
    let (o, s) = run_handler (sora_callback services 7 failure) (fresh complete_tables) in
    (o ≡ done)
    × (s.committed ≡ complete_tables)
    × (s.tables.artifacts ≡ clip ∷ [])
    × (s.tables.jobs ≡ callback_job ∷ [])
    × (Runs.get 7 s.tables.runs
        ≡ some (failed_run services "OpenAI Sora error: no luck" complete_run))
unfolding error_msg
failure_callback_fails_run_example =
    failure_callback_fails_run services 7 7 failure complete_tables {r = complete_run}
      {q = complete_run} (unfold is_failure in refl) (unfold Runs.get in refl)
      (unfold Runs.get in refl)
