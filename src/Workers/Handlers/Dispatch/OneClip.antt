-- ===== src/Workers/Handlers/Dispatch/OneClip.antt =====
-- The invariant of the clips through `handle_job` of src/myloware/workers/handlers.py and through the
-- worker of src/myloware/workers/worker.py.
use mylo_ware.Common.{
  ℕ, String, ◌≡◌, Bool, Option, none, some, inl, inr, List, [], Option-cases, Bool-cases,
}
use mylo_ware.Common.Json.{Json, Fields}
use mylo_ware.Common.Rows.{first_where}
use mylo_ware.Storage.Artifacts.{Artifact, rendered_video}
use mylo_ware.Storage.Jobs.{Job, has_id, claim_postgres}
use mylo_ware.Workers.Session.{Tables, Session, Outcome, done, reschedule, raised, fresh, call}
use mylo_ware.Workers.Session.Preserves.{
  Preserves, Both, Preserves-call, Preserves-run_handler, Preserves-write,
}
use mylo_ware.Workers.Process.{Environment, settle, process_one_job, fail_job, beats}
use mylo_ware.Workers.Loop.{stored, run_once, continue_with}
use mylo_ware.Workers.Handlers.Services.{Services, RenderJob, create_artifact}
use mylo_ware.Workers.Handlers.Clips.{OneClip, OneClip-append, task_of}
use mylo_ware.Workers.Handlers.OneClip.{clip_rules, webhook_sora-OneClip}
use mylo_ware.Workers.Handlers.OneClipPoll.{sora_poll-OneClip}
use mylo_ware.Workers.Handlers.Remotion.{
  store_video, finish_render, conclude, poll_render, remotion_poll, poll_job, rendered,
  webhook_remotion,
}
use mylo_ware.Workers.Handlers.Resume.{
  run_execute, resume_videos, resume_render, resume_gate, answer_gate, hitl_resume,
  langgraph_resume,
}
use mylo_ware.Workers.Handlers.Dispatch.{handle_job, handler}

-- The code behind the engine, which works in sessions of its own, keeps the clips in this order.
pub record EngineKeeps (sv : Services) : Type 0 where
  pub run_workflow :
      (i : ℕ) (db : String) (t : Tables) → OneClip t → OneClip (sv.run_workflow i db t).1
  pub resume_after_videos :
      (i : ℕ) (t : Tables) → OneClip t → OneClip (sv.resume_after_videos i t).1
  pub resume_after_render :
      (i : ℕ) (url : String) (t : Tables) → OneClip t → OneClip (sv.resume_after_render i url t).1
  pub resume_hitl_gate :
      (i : ℕ) (gate : String) (approved : Bool) (comment : Option String) (t : Tables)
      → OneClip t
      → OneClip (sv.resume_hitl_gate i gate approved comment t).1
  pub invoke :
      (i : ℕ) (argument : Json) (t : Tables) → OneClip t → OneClip (sv.invoke i argument t).1

module _ (sv : Services) where
  -- A rendered video is no clip.
  create_video-OneClip :
      (id i : ℕ) (persona uri : String) (meta : Fields)
      → Preserves (Both OneClip) (create_artifact sv id i persona rendered_video uri meta)
  unfolding create_artifact task_of
  create_video-OneClip id i persona uri meta =
      Preserves-write OneClip _ (λ t h. OneClip-append t.artifacts _ (λ u e. absurd (cc)) h)

  store_video-OneClip :
      (i : ℕ) (job_id status : Json) (source url : String)
      → Preserves (Both OneClip) (store_video sv i job_id status source url)
  unfolding store_video
  store_video-OneClip i job_id status source url = search (clip_rules, create_video-OneClip)

  finish_render-OneClip :
      (i : ℕ) (artifacts : List Artifact) (job_id : String) (job : RenderJob)
      → Preserves (Both OneClip) (finish_render sv i artifacts job_id job)
  unfolding finish_render
  finish_render-OneClip i artifacts job_id job = search (clip_rules, store_video-OneClip) depth 10

  conclude-OneClip :
      (i : ℕ) (artifacts : List Artifact) (job_id : String) (job : RenderJob) (percent : Option ℕ)
      → Preserves (Both OneClip) (conclude sv i artifacts job_id job percent)
  unfolding conclude
  conclude-OneClip i artifacts job_id job percent =
      search (clip_rules, finish_render-OneClip) depth 10

  poll_job-OneClip :
      (i : ℕ) (service_url : String) (artifacts : List Artifact) (job_id : Option String)
      → Preserves (Both OneClip) (poll_job sv i service_url artifacts job_id)
  poll_job-OneClip i service_url artifacts none = search (clip_rules)
  poll_job-OneClip i service_url artifacts (some job_id) =
      search (clip_rules, conclude-OneClip) depth 10

  poll_render-OneClip :
      (i : ℕ) (service_url : String) → Preserves (Both OneClip) (poll_render sv i service_url)
  unfolding poll_render
  poll_render-OneClip i service_url = search (clip_rules, poll_job-OneClip) depth 10

  remotion_poll-OneClip : (run_id : Option ℕ) → Preserves (Both OneClip) (remotion_poll sv run_id)
  unfolding remotion_poll
  remotion_poll-OneClip none = search (clip_rules)
  remotion_poll-OneClip (some i) = search (clip_rules, poll_render-OneClip) depth 10

  rendered-OneClip :
      (i : ℕ) (job_id status : Option Json) (output_url : Option Json)
      → Preserves (Both OneClip) (rendered sv i job_id status output_url)
  rendered-OneClip i job_id status none = search (clip_rules)
  rendered-OneClip i job_id status (some v) = search (clip_rules, store_video-OneClip) depth 10

  webhook_remotion-OneClip :
      (run_id : Option ℕ) (payload : Fields)
      → Preserves (Both OneClip) (webhook_remotion sv run_id payload)
  unfolding webhook_remotion
  webhook_remotion-OneClip none payload = search (clip_rules)
  webhook_remotion-OneClip (some i) payload = search (clip_rules, rendered-OneClip) depth 10

module _ (sv : Services) (k : EngineKeeps sv) where
  run_workflow-OneClip :
      (i : ℕ) (db : String) → Preserves (Both OneClip) (call (sv.run_workflow i db))
  run_workflow-OneClip i db = Preserves-call OneClip (sv.run_workflow i db) (k.run_workflow i db)

  run_execute-OneClip :
      (run_id : Option ℕ) (payload : Fields)
      → Preserves (Both OneClip) (run_execute sv run_id payload)
  unfolding run_execute
  run_execute-OneClip none payload = search (clip_rules)
  run_execute-OneClip (some i) payload = search (clip_rules, run_workflow-OneClip) depth 10

  resume_videos-OneClip : (run_id : Option ℕ) → Preserves (Both OneClip) (resume_videos sv run_id)
  unfolding resume_videos
  resume_videos-OneClip none = search (clip_rules)
  resume_videos-OneClip (some i) =
      Preserves-call OneClip (sv.resume_after_videos i) (k.resume_after_videos i)

  after_render-OneClip :
      (i : ℕ) (url : String) → Preserves (Both OneClip) (call (sv.resume_after_render i url))
  after_render-OneClip i url =
      Preserves-call OneClip (sv.resume_after_render i url) (k.resume_after_render i url)

  resume_render-OneClip :
      (run_id : Option ℕ) (payload : Fields)
      → Preserves (Both OneClip) (resume_render sv run_id payload)
  unfolding resume_render
  resume_render-OneClip none payload = search (clip_rules)
  resume_render-OneClip (some i) payload = search (clip_rules, after_render-OneClip) depth 10

  hitl_gate-OneClip :
      (i : ℕ) (gate : String) (approved : Bool) (comment : Option String)
      → Preserves (Both OneClip) (call (sv.resume_hitl_gate i gate approved comment))
  hitl_gate-OneClip i gate approved comment =
      Preserves-call OneClip (sv.resume_hitl_gate i gate approved comment)
        (k.resume_hitl_gate i gate approved comment)

  resume_gate-OneClip :
      (i : ℕ) (gate : String) (approved : Bool) (comment : Option Json)
      → Preserves (Both OneClip) (resume_gate sv i gate approved comment)
  unfolding resume_gate
  resume_gate-OneClip i gate approved comment = search (clip_rules, hitl_gate-OneClip) depth 10

  answer_gate-OneClip :
      (i : ℕ) (gate : String) (payload : Fields) (approved : Option Json)
      → Preserves (Both OneClip) (answer_gate sv i gate payload approved)
  answer_gate-OneClip i gate payload (some (Json.bool b)) = search (resume_gate-OneClip)
  answer_gate-OneClip i gate payload none = search (clip_rules)
  answer_gate-OneClip i gate payload (some Json.null) = search (clip_rules)
  answer_gate-OneClip i gate payload (some (Json.num n)) = search (clip_rules)
  answer_gate-OneClip i gate payload (some (Json.str t)) = search (clip_rules)
  answer_gate-OneClip i gate payload (some (Json.arr xs)) = search (clip_rules)
  answer_gate-OneClip i gate payload (some (Json.obj fs)) = search (clip_rules)

  hitl_resume-OneClip :
      (run_id : Option ℕ) (payload : Fields)
      → Preserves (Both OneClip) (hitl_resume sv run_id payload)
  unfolding hitl_resume
  hitl_resume-OneClip none payload = search (clip_rules)
  hitl_resume-OneClip (some i) payload = search (clip_rules, answer_gate-OneClip) depth 10

  invoke-OneClip :
      (i : ℕ) (argument : Json) → Preserves (Both OneClip) (call (sv.invoke i argument))
  invoke-OneClip i argument = Preserves-call OneClip (sv.invoke i argument) (k.invoke i argument)

  langgraph_resume-OneClip :
      (run_id : Option ℕ) (payload : Fields)
      → Preserves (Both OneClip) (langgraph_resume sv run_id payload)
  unfolding langgraph_resume
  langgraph_resume-OneClip none payload = search (clip_rules)
  langgraph_resume-OneClip (some i) payload = search (clip_rules, invoke-OneClip) depth 10

  -- `handle_job` keeps what is committed and what its session shows.
  handle_job-OneClip : (j : Job) → Preserves (Both OneClip) (handle_job sv j)
  unfolding handle_job
  handle_job-OneClip j =
      search
        (
          clip_rules, run_execute-OneClip, sora_poll-OneClip, remotion_poll-OneClip,
          resume_videos-OneClip, resume_render-OneClip, hitl_resume-OneClip,
          langgraph_resume-OneClip, webhook_sora-OneClip, webhook_remotion-OneClip,
        )
        depth 14

settle-OneClip :
    (env : Environment) (j : Job) (o : Outcome) (s : Session) (t : Tables)
    → Both OneClip s
    → OneClip (stored t (settle env j o s))
unfolding settle fail_job
settle-OneClip env j done s t h = elim (Option-cases s.broken) [
  | inl e ↦ rw (e, settle) h.0
  | inr (message, e) ↦ rw (e, settle) h.1
]
settle-OneClip env j (reschedule delay reason) s t h = h.1
settle-OneClip env j (raised error) s t h = elim (Bool-cases s.in_transaction) [
  | inl e ↦ rw (e, settle) h.1
  | inr e ↦ rw (e, settle) h.1
]

handler-OneClip :
    (sv : Services) (j : Job) (t : Tables)
    → EngineKeeps sv
    → OneClip t
    → Both OneClip (handler sv j (fresh t)).1
unfolding handler fresh
handler-OneClip sv j t k h = Preserves-run_handler (fresh t) (handle_job-OneClip sv k j) (h, h)

process_found-OneClip :
    (sv : Services) (env : Environment) (i : ℕ) (j : Job) (t t' : Tables)
    → first_where (has_id i) t.jobs ≡ some j
    → EngineKeeps sv
    → OneClip t
    → OneClip (stored t' (process_one_job (handler sv) env i t))
unfolding process_one_job
process_found-OneClip sv env i j t t' e k h =
    let before : Tables = record t {
      jobs = beats i env.worker_id env.lease env.beat_times t.jobs;
    } in
    let (o, s) = handler sv j (fresh before) in
    rw (e, process_one_job) (settle-OneClip env j o s t' (handler-OneClip sv j before k h))

process_one_job-OneClip :
    (sv : Services) (env : Environment) (i : ℕ) (t t' : Tables)
    → EngineKeeps sv
    → OneClip t
    → OneClip (stored t' (process_one_job (handler sv) env i t))
process_one_job-OneClip sv env i t t' k h = elim (Option-cases (first_where (has_id i) t.jobs)) [
  | inl e ↦ unfold process_one_job in rw (e, process_one_job) h
  | inr (j, e) ↦ process_found-OneClip sv env i j t t' e k h
]

continue-OneClip :
    (sv : Services) (env : Environment) (t : Tables) (claimed : Option Job) (jobs : List Job)
    → EngineKeeps sv
    → OneClip t
    → OneClip (stored t (continue_with (handler sv) env t claimed jobs))
continue-OneClip sv env t none jobs k h = h
continue-OneClip sv env t (some j) jobs k h =
    process_one_job-OneClip sv env j.id (record t { jobs = jobs }) t k h

-- A turn of a worker, whatever job it claims and however its handler ends, leaves at most one clip
-- of each task in each run, if it finds at most one: given that the code behind the engine does, and
-- that nobody else stores a clip meanwhile.
pub run_once-OneClip :
    (sv : Services) (env : Environment) (t : Tables)
    → EngineKeeps sv
    → OneClip t
    → OneClip (stored t (run_once (handler sv) env t))
unfolding run_once
run_once-OneClip sv env t k h =
    let (claimed, jobs) = claim_postgres [] env.worker_id env.now env.lease t.jobs in
    continue-OneClip sv env t claimed jobs k h
