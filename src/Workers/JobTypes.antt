-- ===== src/Workers/JobTypes.antt =====
-- src/myloware/workers/job_types.py: the types of the jobs, and the keys under which a job is
-- enqueued once. `uuid_text` is `str` of a UUID.
pub mod Keys
use mylo_ware.Common.{ℕ, String, ◌<>◌, ◌≡◌, refl, Option, none, some, str_eq, if◌then◌else◌}

abbrev pub run_execute : String
run_execute = "run.execute"

abbrev pub sora_poll : String
sora_poll = "sora.poll"

abbrev pub remotion_poll : String
remotion_poll = "remotion.poll"

abbrev pub webhook_sora : String
webhook_sora = "webhook.sora"

abbrev pub webhook_remotion : String
webhook_remotion = "webhook.remotion"

abbrev pub resume_videos : String
resume_videos = "langgraph.resume_after_videos"

abbrev pub resume_render : String
resume_render = "langgraph.resume_after_render"

abbrev pub resume : String
resume = "langgraph.resume"

abbrev pub hitl_resume : String
hitl_resume = "langgraph.hitl_resume"

module _ (uuid_text : ℕ → String) where
  unfoldable pub idempotency_run_execute : ℕ → String
  idempotency_run_execute r = "run_execute:" <> uuid_text r

  unfoldable pub idempotency_sora_poll : ℕ → String
  idempotency_sora_poll r = "sora_poll:" <> uuid_text r

  unfoldable pub idempotency_remotion_poll : ℕ → String → String
  idempotency_remotion_poll r render_job_id =
      "remotion_poll:" <> uuid_text r <> ":" <> render_job_id

  -- No key without an id.
  abbrev keyed : String → ℕ → Option String → Option String
  keyed prefix r none = none
  keyed prefix r (some i) = if str_eq i "" then none else some (prefix <> uuid_text r <> ":" <> i)

  unfoldable pub idempotency_sora_webhook : ℕ → Option String → Option String
  idempotency_sora_webhook r task_id = keyed "sora:" r task_id

  unfoldable pub idempotency_remotion_webhook : ℕ → Option String → Option String
  idempotency_remotion_webhook r job_id = keyed "remotion:" r job_id

  unfoldable pub idempotency_resume_videos : ℕ → String
  idempotency_resume_videos r = "resume_videos:" <> uuid_text r

  unfoldable pub idempotency_resume_render : ℕ → String
  idempotency_resume_render r = "resume_render:" <> uuid_text r

  abbrev text_or : Option String → String → String
  text_or none default = default
  text_or (some s) default = if str_eq s "" then default else s

  unfoldable pub idempotency_langgraph_resume : ℕ → Option String → String → String
  idempotency_langgraph_resume r interrupt_id resume_data_hash =
      "lg_resume:" <> uuid_text r <> ":" <> text_or interrupt_id "none" <> ":" <> resume_data_hash
