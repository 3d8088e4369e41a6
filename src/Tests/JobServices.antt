-- ===== src/Tests/JobServices.antt =====
-- Services and tables for the handlers of src/myloware/workers/handlers.py.
use mylo_ware.Common.{String, true, false, none, some, ◌⊎◌, inl, inr, [], ◌∷◌}
use mylo_ware.Common.Json.{Json, Fields, Items}
use mylo_ware.Config.ProviderModes
use mylo_ware.Storage.Jobs.{Job}
use mylo_ware.Storage.Runs.{Run}
use mylo_ware.Storage.Runs.Status.{RunStatus}
use mylo_ware.Storage.Artifacts.{Artifact}
use mylo_ware.Workers.Session.{Tables}
use mylo_ware.Workers.Handlers.Services.{Services}
use mylo_ware.Workflow.Resume.{Engine, Snapshot}
use mylo_ware.Tests.JobTable.{execute_job}
use mylo_ware.Tests.RunTable.{waiting_run, other_run}

abbrev pub complete : Fields
complete = Fields.field "status" (Json.str "completed") Fields.end

abbrev pub services : Services
services = record {
  provider_settings = record {
    llama_stack_provider = ProviderModes.other;
    sora_provider = ProviderModes.other;
    remotion_provider = ProviderModes.other;
    upload_post_provider = ProviderModes.other;
    use_fake_providers = ProviderModes.flag false;
  };
  disable_background_workflows = false;
  use_langgraph_engine = true;
  job_max_attempts = 5;
  job_poll_interval = 1000000;
  webhook_base_url = "";
  remotion_service_url = "http://remotion:3001";
  now = 100;
  now_text = "1970-01-01";
  clip_id = λ t. 50;
  artifact_id = 60;
  job_id = 70;
  trace_id = none;
  rollback_message = "rolled back";
  uuid_text = λ i. "run";
  loads = λ s. none;
  int = λ s. none;
  int_message = λ v. "int";
  repr = λ v. "?";
  equal = λ v w. false;
  percent = λ v. none;
  retrieve_video = λ t. inr complete;
  download = λ t. inr "file:///clip";
  transcode = λ u i n. inr (some "https://clip");
  render_status = λ u i. inl "down";
  normalize_url = λ u. inr u;
  run_workflow = λ i db t. (none, t);
  resume_after_videos = λ i t. (none, t);
  resume_after_render = λ i u t. (none, t);
  resume_hitl_gate = λ i g b c t. (none, t);
  interrupts = λ i. inr [];
  invoke = λ i v t. (none, t);
}

abbrev pub engine : Engine
engine = record {
  use_langgraph_engine = true;
  dispatcher_is_db = true;
  sora_is_real = true;
  checkpointer_problem = none;
  looks = λ i.
      inr (record {
        interrupts =
            record {
              id = some "i1";
              value = Fields.field "waiting_for" (Json.str "sora_webhook") Fields.end;
            }
            ∷ [];
        current_step = some "wait_for_videos";
        status = none;
      })
      ∷ [];
  invoke = λ i id answer t. (none, t);
  media = record {
    webhook_base_url = "";
    transcode_s3_bucket = "";
    transcode_s3_prefix = "";
    parse = λ s. none;
    loads = λ s. none;
    int = λ s. none;
  };
  now = 100;
  uuid_text = λ i. "run";
}

abbrev pub gate_look : String ⊎ Snapshot
gate_look = inr (record {
  interrupts =
      record { id = some "i2"; value = Fields.field "gate" (Json.str "publish") Fields.end } ∷ [];
  current_step = some "publish_approval";
  status = none;
})

abbrev pub filming_run : Run
filming_run = record waiting_run { status = RunStatus.awaiting_video_generation }

abbrev pub callback_payload : Fields
callback_payload = Fields.field "task_id" (Json.str "t1") (
    Fields.field "video_urls" (Json.arr (Items.cons (Json.str "https://sora") Items.nil))
      Fields.end)

abbrev pub callback_job : Job
callback_job = record execute_job {
  job_type = "webhook.sora";
  run_id = some 7;
  payload = callback_payload;
}

-- A clip of the task, as the callback stores it.
abbrev pub clip : Artifact
clip = record {
  id = 60;
  run_id = 7;
  persona = "producer";
  artifact_type = "video_clip";
  content = none;
  uri = some "https://clip";
  metadata = some (Fields.field "task_id" (Json.str "t1") Fields.end);
  created_at = 90;
}

abbrev pub clip_tables : Tables
clip_tables = record {
  jobs = callback_job ∷ [];
  letters = [];
  runs = filming_run ∷ other_run ∷ [];
  artifacts = clip ∷ [];
}
