-- ===== src/Workers/Handlers/Services.antt =====
-- What the handlers of src/myloware/workers/handlers.py read and call: the settings, the clock, fresh
-- ids, and the services behind them.
use mylo_ware.Common.{
  ℕ, String, ◌<>◌, Bool, true, false, ◌&&◌, Option, none, some, ◌⊎◌, List, [], ◌∷◌, if◌then◌else◌,
  str_eq,
}
use mylo_ware.Common.Json
use mylo_ware.Common.Json.{Json, Items, Fields, truthy}
use mylo_ware.Config.ProviderModes
use mylo_ware.Storage.Runs
use mylo_ware.Storage.Runs.Status
use mylo_ware.Storage.Runs.Status.{RunStatus}
use mylo_ware.Storage.Runs.{Run, Change}
use mylo_ware.Storage.Artifacts
use mylo_ware.Storage.Artifacts.{Artifact, ArtifactType}
use mylo_ware.Workers.Session.{
  Tables, Exec, pure, select_from, attempt, write, try_enqueue, ◌>>=◌, or_raise,
}

-- `RenderStatus` of src/myloware/services/render_provider.py
pub data RenderStatus : Type 0 where
  pending rendering completed failed : RenderStatus

-- `RenderStatus.value`; these are lower case.
abbrev pub render_value : RenderStatus → String
render_value pending = "pending"
render_value rendering = "rendering"
render_value completed = "completed"
render_value failed = "failed"

-- `RenderJob`; `progress` is the entry of that name in its metadata, None counts as missing.
pub record RenderJob : Type 0 where
  pub status : RenderStatus
  pub artifact_url : Option String
  pub error : Option String
  pub progress : Option Json

-- A call comes back with a value, or with the message of what it raised. Times are in microseconds.
pub record Services : Type 0 where
  pub provider_settings : ProviderModes.Settings
  pub disable_background_workflows : Bool
  pub use_langgraph_engine : Bool
  pub job_max_attempts : ℕ
  pub job_poll_interval : ℕ
  pub webhook_base_url : String
  pub remotion_service_url : String
  pub now : ℕ
  pub now_text : String
  pub clip_id : String → ℕ
  pub artifact_id : ℕ
  pub job_id : ℕ
  pub trace_id : Option String
  pub rollback_message : String
  pub uuid_text : ℕ → String
  -- `json.loads`, `int` of a text, the message of what `int` raises, `str` of a value that is no text, `==` of two such values, and
  -- `int(max(0.0, min(1.0, float(value))) * 100)`
  pub loads : String → Option Json
  pub int : String → Option ℕ
  pub int_message : Json → String
  pub repr : Json → String
  pub equal : Json → Json → Bool
  pub percent : Json → Option ℕ
  -- `retrieve_openai_video_job`, `download_openai_video_content_to_tempfile` (as a URI),
  -- `transcode_video`, `LocalRemotionProvider.get_status`, `normalize_remotion_output_url`
  pub retrieve_video : String → String ⊎ Fields
  pub download : String → String ⊎ String
  pub transcode : String → ℕ → ℕ → String ⊎ Option String
  pub render_status : String → String → String ⊎ RenderJob
  pub normalize_url : String → String ⊎ String
  -- `run_workflow_async`, `resume_after_videos`, `resume_after_render`, `resume_hitl_gate`, and
  -- `graph.ainvoke`
  pub run_workflow : ℕ → String → Tables → Option String × Tables
  pub resume_after_videos : ℕ → Tables → Option String × Tables
  pub resume_after_render : ℕ → String → Tables → Option String × Tables
  pub resume_hitl_gate : ℕ → String → Bool → Option String → Tables → Option String × Tables
  pub interrupts : ℕ → String ⊎ List (Option Json)
  pub invoke : ℕ → Json → Tables → Option String × Tables

module _ (sv : Services) where
  -- `str(value)`
  unfoldable pub text_of : Json → String
  text_of (Json.str s) = s
  text_of v = sv.repr v

  -- `str(d.get(key) or default)`
  unfoldable pub text_or : String → String → Fields → String
  unfolding text_of Json.get_true
  text_or key default fs = elim (Json.get_true key fs) [ none ↦ default | some v ↦ text_of v ]

  -- `int(value)`
  unfoldable pub int_of : Json → Option ℕ
  int_of (Json.num n) = some n
  int_of (Json.bool b) = some (if b then 1 else 0)
  int_of (Json.str s) = sv.int s
  int_of _ = none

  -- `==`
  unfoldable pub json_eq : Json → Json → Bool
  json_eq (Json.str s) (Json.str t) = str_eq s t
  json_eq (Json.str s) _ = false
  json_eq _ (Json.str t) = false
  json_eq v w = sv.equal v w

  -- `_safe_json`
  unfoldable pub safe_json : Option Json → Fields
  safe_json (some (Json.obj fs)) = fs
  safe_json (some (Json.str s)) = elim (sv.loads s) [ some (Json.obj fs) ↦ fs | _ ↦ Fields.end ]
  safe_json _ = Fields.end

-- Texts: None and "" are false.
abbrev pub some_text : Option String → Bool
some_text none = false
some_text (some s) = if str_eq s "" then false else true

abbrev pub is_status : RunStatus → Run → Bool
is_status st r = str_eq (Runs.Status.value r.status) (Runs.Status.value st)

-- The run is over: COMPLETED, FAILED or REJECTED.
unfoldable pub is_terminal : Run → Bool
is_terminal r =
    if is_status RunStatus.completed r
    then true
    else if is_status RunStatus.failed r
    then true
    else is_status RunStatus.rejected r

abbrev pub is_type : ArtifactType → Artifact → Bool
is_type t a = str_eq a.artifact_type (Artifacts.value t)

-- `artifact_metadata or {}`
abbrev pub meta_of : Artifact → Fields
meta_of a = elim a.metadata [ none ↦ Fields.end | some fs ↦ fs ]

-- An artifact of the type whose metadata have the value under the key.
unfoldable pub has_meta : Services → ArtifactType → String → Json → Artifact → Bool
unfolding json_eq Json.get
has_meta sv t key v a =
    is_type t a && elim (Json.get key (meta_of a)) [ none ↦ false | some w ↦ json_eq sv w v ]

abbrev pub last : List Artifact → Option Artifact
last [] = none
last (a ∷ []) = some a
last (a ∷ b ∷ rest) = last (b ∷ rest)

-- `session_run_repo.get_async` and the `ValueError` of a run that is not there.
unfoldable pub get_run : Services → ℕ → Exec Run
unfolding ◌>>=◌ Runs.get
get_run sv i = do
  found ← select_from (λ t. Runs.get i t.runs)
  attempt (or_raise ("Run " <> sv.uuid_text i <> " not found") found)

unfoldable pub get_artifacts : ℕ → Exec (List Artifact)
unfolding select_from Artifacts.get_by_run
get_artifacts i = select_from (λ t. Artifacts.get_by_run i t.artifacts)

unfoldable pub update_run : Services → ℕ → List Change → Exec Unit
unfolding write Runs.update
update_run sv i cs = write (λ t. record t { runs = (Runs.update i cs sv.now t.runs).1 })

-- `update_async(run_id, status=RunStatus.FAILED.value, error=error)`
unfoldable pub fail_run : Services → ℕ → String → Exec Unit
unfolding update_run
fail_run sv i error =
    update_run sv i
      (Change.status_text (Runs.Status.value RunStatus.failed) ∷ Change.error_is (some error) ∷ [])

unfoldable pub add_run_artifact : Services → ℕ → String → Json → Exec Unit
unfolding write Runs.add_artifact
add_run_artifact sv i key v =
    write (λ t. record t { runs = (Runs.add_artifact i key v sv.now t.runs).1 })

-- `session_artifact_repo.create_async`
unfoldable pub create_artifact :
    Services → ℕ → ℕ → String → ArtifactType → String → Fields → Exec Unit
unfolding write Artifacts.create
create_artifact sv id i persona type uri meta = write (λ t. record t {
  artifacts =
      (Artifacts.create
        (record {
          id = id;
          run_id = i;
          persona = persona;
          artifact_type = type;
          content = none;
          uri = some uri;
          metadata = some meta;
          trace_id = sv.trace_id;
        })
        sv.now t.artifacts).1;
})

-- The job that resumes the run, unless the settings forbid background work; one that is enqueued
-- already is passed over.
unfoldable pub enqueue_resume : Services → String → ℕ → Fields → String → Exec Unit
unfolding try_enqueue pure
enqueue_resume sv job_type i payload key =
    if sv.disable_background_workflows
    then pure tt
    else try_enqueue sv.rollback_message
        (record {
          id = sv.job_id;
          job_type = job_type;
          idempotency_key = some key;
          run_id = some i;
          payload = some payload;
          max_attempts = sv.job_max_attempts;
          available_at = none;
        })
        sv.now
