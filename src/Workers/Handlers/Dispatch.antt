-- ===== src/Workers/Handlers/Dispatch.antt =====
-- `handle_job` of src/myloware/workers/handlers.py: one handler for each type of job.
pub mod OneClip
pub mod Resumes
use mylo_ware.Common.{String, ◌<>◌, str_eq, if◌then◌else◌}
use mylo_ware.Storage.Jobs.{Job}
use mylo_ware.Workers.JobTypes
use mylo_ware.Workers.Session.{Exec, end_with, raised, run_handler}
use mylo_ware.Workers.Process.{Handler}
use mylo_ware.Workers.Handlers.Services.{Services}
use mylo_ware.Workers.Handlers.SoraPoll.{sora_poll}
use mylo_ware.Workers.Handlers.SoraWebhook.{webhook_sora}
use mylo_ware.Workers.Handlers.Remotion.{remotion_poll, webhook_remotion}
use mylo_ware.Workers.Handlers.Resume.{
  run_execute, resume_videos, resume_render, hitl_resume, langgraph_resume,
}

unfoldable pub handle_job : Services → Job → Exec Unit
unfolding run_execute sora_poll remotion_poll resume_videos resume_render hitl_resume
    langgraph_resume webhook_sora webhook_remotion end_with
handle_job sv j =
    if str_eq j.job_type JobTypes.run_execute
    then run_execute sv j.run_id j.payload
    else if str_eq j.job_type JobTypes.sora_poll
    then sora_poll sv j.run_id
    else if str_eq j.job_type JobTypes.remotion_poll
    then remotion_poll sv j.run_id
    else if str_eq j.job_type JobTypes.resume_videos
    then resume_videos sv j.run_id
    else if str_eq j.job_type JobTypes.resume_render
    then resume_render sv j.run_id j.payload
    else if str_eq j.job_type JobTypes.hitl_resume
    then hitl_resume sv j.run_id j.payload
    else if str_eq j.job_type JobTypes.resume
    then langgraph_resume sv j.run_id j.payload
    else if str_eq j.job_type JobTypes.webhook_sora
    then webhook_sora sv j.run_id j.payload
    else if str_eq j.job_type JobTypes.webhook_remotion
    then webhook_remotion sv j.run_id j.payload
    else end_with (raised ("Unknown job_type: " <> j.job_type))

-- The handler that the worker runs.
unfoldable pub handler : Services → Handler
unfolding run_handler handle_job
handler sv j = run_handler (handle_job sv j)
