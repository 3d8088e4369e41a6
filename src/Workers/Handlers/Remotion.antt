-- ===== src/Workers/Handlers/Remotion.antt =====
-- The branches `remotion.poll` and `webhook.remotion` of `handle_job` in
-- src/myloware/workers/handlers.py.
use mylo_ware.Common.{
  ℕ, ◌+◌, ◌*◌, max, String, ◌<>◌, Bool, true, false, ◌&&◌, ◌||◌, Option, none, some, List, [], ◌∷◌,
  any, str_eq, if◌then◌else◌,
}
use mylo_ware.Common.Text.{codes, starts_with, rstrip_slash}
use mylo_ware.Common.Json
use mylo_ware.Common.Json.{Json, Fields, get_true}
use mylo_ware.Config.ProviderModes.{effective_remotion_provider}
use mylo_ware.Storage.Runs.Status.{RunStatus}
use mylo_ware.Storage.Artifacts.{Artifact, rendered_video, editor_output}
use mylo_ware.Workers.JobTypes
use mylo_ware.Workers.JobTypes.{idempotency_resume_render}
use mylo_ware.Workers.Session.{
  Exec, pure, end_with, raised, reschedule, attempt, ◌>>=◌, ◌>>◌, commit,
}
use mylo_ware.Workers.Handlers.Services.{
  Services, RenderJob, render_value, text_of, some_text, is_status, is_terminal, is_type, meta_of,
  has_meta, get_run, get_artifacts, fail_run, add_run_artifact, create_artifact, enqueue_resume,
}
use mylo_ware.Workers.Handlers.SoraPoll.{is_real, second}

-- The render job of one artifact: `meta.get("render_job_id") or meta.get("job_id")`, if that is a text
-- that is not empty.
abbrev text_if : Option Json → Option String
text_if (some (Json.str s)) = if str_eq s "" then none else some s
text_if _ = none

unfoldable pub job_id_of : Fields → Option String
unfolding get_true Json.get
job_id_of meta = elim (get_true "render_job_id" meta) [
  | some v ↦ text_if (some v)
  | none ↦ text_if (Json.get "job_id" meta)
]

-- `_extract_render_job_id`: the latest one.
unfoldable pub extract_render_job_id : List Artifact → Option String
unfolding job_id_of
extract_render_job_id [] = none
extract_render_job_id (a ∷ rest) = elim (extract_render_job_id rest) [
  | some i ↦ some i
  | none ↦ if is_type editor_output a then job_id_of (meta_of a) else none
]

abbrev text_or_empty : Option String → String
text_or_empty none = ""
text_or_empty (some s) = s

-- An error of the service or of the transport: the run does not fail of it.
unfoldable pub is_transient : String → Bool
unfolding starts_with
is_transient error =
    starts_with (codes error) (codes "Remotion service unavailable")
    || starts_with (codes error) (codes "Remotion service error")
    || starts_with (codes error) (codes "Job not found")

unfoldable pub is_ready : String → Bool
is_ready status = str_eq status "done" || str_eq status "completed" || str_eq status "ready"

module _ (sv : Services) where
  abbrev text_or_null : String → Json
  text_or_null s = if str_eq s "" then Json.null else Json.str s

  abbrev num_or_null : Option ℕ → Json
  num_or_null none = Json.null
  num_or_null (some n) = Json.num n

  unfoldable pub remotion_progress : String → RenderJob → Option ℕ → Json
  remotion_progress i job percent = Json.obj (
      Fields.field "job_id" (Json.str i) (
        Fields.field "status" (text_or_null (render_value job.status)) (
          Fields.field "progress_percent" (num_or_null percent)
            (Fields.field "checked_at" (Json.str sv.now_text) Fields.end))))

  -- The metadata of the rendered video, for the poll and for the webhook.
  unfoldable pub video_metadata : Json → Json → String → Fields
  video_metadata job_id status source = Fields.field "render_job_id" job_id (
      Fields.field "job_id" job_id (
        Fields.field "status" status (
          Fields.field "source" (Json.str source)
            (Fields.field "processed_at" (Json.str sv.now_text) Fields.end))))

  unfoldable pub store_video : ℕ → Json → Json → String → String → Exec Unit
  unfolding ◌>>=◌ create_artifact enqueue_resume video_metadata idempotency_resume_render
  store_video i job_id status source url = do
    create_artifact sv sv.artifact_id i "editor" rendered_video url
        (video_metadata job_id status source)
    enqueue_resume sv JobTypes.resume_render i (Fields.field "video_url" (Json.str url) Fields.end)
        (idempotency_resume_render sv.uuid_text i)

  unfoldable pub poll_delay : ℕ
  poll_delay = sv.job_poll_interval + 10 * second

  unfoldable pub waiting_reason : RenderJob → Option ℕ → String
  unfolding text_of
  waiting_reason job percent =
      "Waiting for Remotion render (status="
      <> render_value job.status
      <> elim percent [ none ↦ "" | some n ↦ ", progress=" <> text_of sv (Json.num n) <> "%" ]
      <> ")"

  abbrev failed_status : String → Bool
  failed_status s = str_eq s "failed" || str_eq s "error"

  -- `str(error or "Render failed")`
  abbrev error_text : Option String → String
  error_text error = if some_text error then text_or_empty error else "Render failed"

  -- The finished render: stored once.
  unfoldable pub finish_render : ℕ → List Artifact → String → RenderJob → Exec Unit
  unfolding ◌>>=◌ store_video has_meta commit
  finish_render i artifacts job_id job = do
    url ← attempt (sv.normalize_url (text_or_empty job.artifact_url))
    if any (has_meta sv rendered_video "render_job_id" (Json.str job_id)) artifacts
        then pure tt
        else (do
          store_video i (Json.str job_id) (Json.str (render_value job.status)) "remotion_poll" url
          commit)

  unfoldable pub conclude : ℕ → List Artifact → String → RenderJob → Option ℕ → Exec Unit
  unfolding ◌>>=◌ is_transient is_ready finish_render fail_run commit poll_delay waiting_reason
  conclude i artifacts job_id job percent =
      if some_text job.error && is_transient (text_or_empty job.error)
      then (do
        commit
        end_with (reschedule (max (15 * second) poll_delay) (text_or_empty job.error)))
      else if is_ready (render_value job.status) && some_text job.artifact_url
      then finish_render i artifacts job_id job
      else if failed_status (render_value job.status) || some_text job.error
      then (do fail_run sv i (error_text job.error); commit)
      else (do
        commit
        end_with (reschedule (max (10 * second) poll_delay) (waiting_reason job percent)))

  abbrev percent_of : Option Json → Option ℕ
  percent_of none = none
  percent_of (some v) = sv.percent v

  -- The service is asked for the render job that was found.
  abbrev pub poll_job : ℕ → String → List Artifact → Option String → Exec Unit
  poll_job i service_url artifacts none =
      end_with (raised "remotion.poll could not determine render_job_id for run")
  poll_job i service_url artifacts (some job_id) = do
    job ← attempt (sv.render_status service_url job_id)
    add_run_artifact sv i "remotion_progress"
        (remotion_progress job_id job (percent_of job.progress))
    conclude i artifacts job_id job (percent_of job.progress)

  unfoldable pub poll_render : ℕ → String → Exec Unit
  unfolding ◌>>=◌ get_artifacts extract_render_job_id add_run_artifact remotion_progress conclude
  poll_render i service_url = do
    artifacts ← get_artifacts i
    poll_job i service_url artifacts (extract_render_job_id artifacts)

  unfoldable pub remotion_poll : Option ℕ → Exec Unit
  unfolding ◌>>=◌ effective_remotion_provider get_run is_terminal rstrip_slash poll_render
  remotion_poll none = end_with (raised "remotion.poll requires run_id")
  remotion_poll (some i) =
      if is_real (effective_remotion_provider sv.provider_settings)
      then (do
        run ← get_run sv i
        if is_terminal run
            then pure tt
            else if is_status RunStatus.awaiting_render run
            then (if str_eq (rstrip_slash sv.remotion_service_url) ""
                then end_with (raised "REMOTION_SERVICE_URL is required for remotion.poll")
                else poll_render i (rstrip_slash sv.remotion_service_url))
            else pure tt)
      else pure tt

  -- The webhook. `first_true` is `payload.get(a) or payload.get(b)`.
  abbrev first_true : String → String → Fields → Option Json
  first_true a b payload = elim (get_true a payload) [ some v ↦ some v | none ↦ Json.get b payload ]

  abbrev is_word : (String → Bool) → Option Json → Bool
  is_word test (some (Json.str s)) = test s
  is_word test _ = false

  abbrev or_null : Option Json → Json
  or_null none = Json.null
  or_null (some v) = v

  -- A video of the render job is stored already; a job id that is false is not looked for.
  unfoldable pub is_stored : Option Json → List Artifact → Bool
  unfolding has_meta Json.truthy
  is_stored none existing = false
  is_stored (some job_id) existing =
      Json.truthy job_id && any (has_meta sv rendered_video "render_job_id" job_id) existing

  -- A finished render, with `output_url` if it is true.
  abbrev pub rendered : ℕ → Option Json → Option Json → Option Json → Exec Unit
  rendered i job_id status none = end_with (raised "No output_url in payload")
  rendered i job_id status (some output_url) = do
    url ← attempt (sv.normalize_url (text_of sv output_url))
    existing ← get_artifacts i
    if is_stored job_id existing
        then pure tt
        else store_video i (or_null job_id) (or_null status) "remotion" url

  abbrev true_value : Option Json → Option Json
  true_value none = none
  true_value (some v) = if Json.truthy v then some v else none

  unfoldable pub webhook_remotion : Option ℕ → Fields → Exec Unit
  unfolding ◌>>=◌ get_true Json.get Json.truthy text_of is_ready is_stored store_video fail_run
      get_artifacts
  webhook_remotion none payload = end_with (raised "webhook.remotion requires run_id")
  webhook_remotion (some i) payload =
      let status = Json.get "status" payload in
      let error = get_true "error" payload in
      if is_word (λ s. str_eq s "error") status || elim error [ none ↦ false | some v ↦ true ]
      then fail_run sv i (elim error [ none ↦ "Render failed" | some v ↦ text_of sv v ])
      else if is_word is_ready status
      then rendered i (first_true "job_id" "id" payload) status
          (true_value (first_true "output_url" "outputUrl" payload))
      else pure tt
