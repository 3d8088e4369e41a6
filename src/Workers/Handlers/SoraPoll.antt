-- ===== src/Workers/Handlers/SoraPoll.antt =====
-- The branch `sora.poll` of `handle_job` in src/myloware/workers/handlers.py.
pub mod Progress
pub mod Finishes
use mylo_ware.Common.{
  ℕ, ◌+◌, ◌*◌, ◌/◌, min, suc, String, ◌<>◌, Bool, true, false, ◌&&◌, ◌||◌, Option, none, some, ◌⊎◌,
  inl, inr, List, [], ◌∷◌, ◌==◌, leb, length, str_eq, if◌then◌else◌, select, is_some,
}
use mylo_ware.Common.Text.{strip}
use mylo_ware.Common.Json
use mylo_ware.Common.Json.{Json, Items, Fields, truthy, get_true, is_text}
use mylo_ware.Config.ProviderModes.{ProviderMode, real, effective_sora_provider}
use mylo_ware.Storage.Runs.Status
use mylo_ware.Storage.Runs.Status.{RunStatus}
use mylo_ware.Storage.Runs
use mylo_ware.Storage.Runs.{Run, Change, artifacts_dict}
use mylo_ware.Storage.Artifacts.{Artifact, ArtifactType, video_clip, clip_manifest}
use mylo_ware.Workers.JobTypes
use mylo_ware.Workers.JobTypes.{idempotency_resume_videos}
use mylo_ware.Workers.Session.{
  Exec, pure, end_with, done, raised, reschedule, attempt, ◌>>=◌, ◌>>◌, or_raise, commit,
}
use mylo_ware.Workers.Handlers.Services.{
  Services, text_of, text_or, int_of, some_text, is_status, is_terminal, is_type, meta_of, last,
  get_run, get_artifacts, update_run, fail_run, add_run_artifact, create_artifact, enqueue_resume,
}

-- What the poll knows of one task.
pub record TaskState : Type 0 where
  pub status : String
  pub progress : Option ℕ

-- The local variables of the loop over the tasks: `existing_task_ids`, `task_statuses` (the last
-- entry first), `completed_now` and `failed_now`.
pub record Poll : Type 0 where
  pub existing : List String
  pub statuses : List (String × TaskState)
  pub completed_now : ℕ
  pub failed_now : Option String

abbrev pub one_of : String → List String → Bool
one_of s [] = false
one_of s (t ∷ ts) = if str_eq t s then true else one_of s ts

abbrev pub state_of : String → List (String × TaskState) → Option TaskState
state_of t [] = none
state_of t ((k, st) ∷ rest) = if str_eq k t then some st else state_of t rest

abbrev pub is_real : ProviderMode → Bool
is_real real = true
is_real _ = false

abbrev pub truthy_list : List String → Bool
truthy_list [] = false
truthy_list (t ∷ ts) = true

abbrev pub second : ℕ
second = 1000000

module _ (sv : Services) where
  -- `[str(t) for t in raw_pending if t]`
  unfoldable pub true_texts : Items → List String
  unfolding truthy text_of
  true_texts Items.nil = []
  true_texts (Items.cons v vs) =
      let rest = true_texts vs in if truthy v then text_of sv v ∷ rest else rest

  -- `task_mapping`: the keys that are not empty, each with its object ({} where it has none).
  unfoldable pub task_mapping : Fields → List (String × Fields)
  task_mapping Fields.end = []
  task_mapping (Fields.field k v fs) =
      let rest = task_mapping fs in
      if str_eq k "" then rest else (k, elim v [ Json.obj o ↦ o | _ ↦ Fields.end ]) ∷ rest

  abbrev task_keys : List (String × Fields) → List String
  task_keys [] = []
  task_keys ((k, v) ∷ rest) = k ∷ task_keys rest

  -- A manifest of the tasks that has a content.
  unfoldable pub is_manifest : Artifact → Bool
  unfolding is_text
  is_manifest a =
      is_type clip_manifest a
      && is_text "type" "task_metadata_mapping" (meta_of a)
      && some_text a.content

  abbrev mapping_of : Option Json → List (String × Fields)
  mapping_of (some (Json.obj fs)) = task_mapping fs
  mapping_of _ = []

  abbrev count_of : Option Json → ℕ
  count_of none = 1
  count_of (some v) = elim (int_of sv v) [ none ↦ 1 | some n ↦ n ]

  abbrev content_of : Artifact → String
  content_of a = elim a.content [ none ↦ "{}" | some s ↦ s ]

  -- `expected_count`, and the mapping of the latest manifest.
  unfoldable pub read_manifest : List Artifact → ℕ × List (String × Fields)
  unfolding is_manifest select task_mapping int_of get_true
  read_manifest artifacts = elim (last (select is_manifest artifacts)) [
    | none ↦ (1, [])
    | some a ↦ (count_of (get_true "task_count" (meta_of a)), mapping_of (sv.loads (content_of a)))
  ]

  abbrev or_keys : List String → List String → List String
  or_keys [] keys = keys
  or_keys (t ∷ ts) keys = t ∷ ts

  abbrev listed : Option Json → List String
  listed (some (Json.arr vs)) = true_texts vs
  listed _ = []

  -- `pending_task_ids`: those that the run lists; else those of the manifest.
  unfoldable pub pending_task_ids : Run → List (String × Fields) → List String
  unfolding true_texts Json.get
  pending_task_ids run mapping =
      or_keys (listed (Json.get "pending_task_ids" (artifacts_dict run))) (task_keys mapping)

  -- `existing_task_ids`
  unfoldable pub existing_task_ids : List Artifact → List String
  unfolding Json.get
  existing_task_ids [] = []
  existing_task_ids (a ∷ rest) =
      let ids = existing_task_ids rest in
      if is_type video_clip a
      then elim (Json.get "task_id" (meta_of a)) [
        | some (Json.str t) ↦ if str_eq t "" then ids else t ∷ ids
        | _ ↦ ids
      ]
      else ids

  abbrev fields_at : String → List (String × Fields) → Fields
  fields_at t [] = Fields.end
  fields_at t ((k, fs) ∷ rest) = if str_eq k t then fs else fields_at t rest

  abbrev index_or_zero : Option Json → ℕ
  index_or_zero none = 0
  index_or_zero (some v) = elim (int_of sv v) [ none ↦ 0 | some n ↦ n ]

  -- `_video_index_for`
  unfoldable pub video_index_for : String → List (String × Fields) → ℕ
  unfolding int_of get_true Json.get
  video_index_for t mapping =
      let fs = fields_at t mapping in
      index_or_zero
        (elim (get_true "video_index" fs) [ some v ↦ some v | none ↦ Json.get "videoIndex" fs ])

  abbrev int_of_maybe : Option Json → Option ℕ
  int_of_maybe none = none
  int_of_maybe (some v) = int_of sv v

  -- `task_statuses[task_id]` for the answer of the video service.
  unfoldable pub read_state : Fields → TaskState
  unfolding text_or int_of strip Json.get
  read_state job =
      let status = strip (text_or sv "status" "" job) in
      record {
        status = if str_eq status "" then "unknown" else status;
        progress = int_of_maybe (Json.get "progress" job);
      }

  unfoldable pub failure_of : Fields → String
  unfolding text_or Json.get
  failure_of job = elim (Json.get "error" job) [
    | some (Json.obj fs) ↦ text_or sv "message" "OpenAI video job failed" fs
    | _ ↦ "OpenAI video job failed"
  ]

  unfoldable pub clip_metadata : String → List (String × Fields) → Fields
  unfolding video_index_for
  clip_metadata t mapping = Fields.field "task_id" (Json.str t) (
      Fields.field "video_index" (Json.num (video_index_for t mapping))
        (Fields.field "source" (Json.str "sora_poll") Fields.end))

  abbrev pub transcode_failed : Poll → Poll × Bool
  transcode_failed p =
      (record p { failed_now = some "Transcode failed (ffmpeg missing or codec error)" }, false)

  unfoldable pub store_clip :
      ℕ → List (String × Fields) → String → Poll → String → Exec (Poll × Bool)
  unfolding ◌>>=◌ create_artifact clip_metadata
  store_clip i mapping t p uri = do
    create_artifact sv (sv.clip_id t) i "producer" video_clip uri (clip_metadata t mapping)
    pure (record p { existing = t ∷ p.existing; completed_now = p.completed_now + 1 }, true)

  abbrev pub keep_transcoded :
      ℕ → List (String × Fields) → String → Poll → Option String → Exec (Poll × Bool)
  keep_transcoded i mapping t p none = pure (transcode_failed p)
  keep_transcoded i mapping t p (some uri) =
      if str_eq uri "" then pure (transcode_failed p) else store_clip i mapping t p uri

  abbrev pub transcode : ℕ → List (String × Fields) → String → String → Exec (Option String)
  transcode i mapping t uri = attempt (sv.transcode uri i (video_index_for t mapping))

  -- A finished task: its video is fetched, transcoded and stored, or the loop ends in a failure. The
  -- second component says whether the loop goes on.
  unfoldable pub fetch_clip : ℕ → List (String × Fields) → String → Poll → Exec (Poll × Bool)
  unfolding ◌>>=◌ store_clip video_index_for
  fetch_clip i mapping t p =
      attempt (sv.download t) >>= transcode i mapping t >>= keep_transcoded i mapping t p

  -- The answer of the video service for a task.
  unfoldable pub see_answer :
      ℕ → List (String × Fields) → String → Poll → Fields → Exec (Poll × Bool)
  unfolding pure read_state failure_of fetch_clip
  see_answer i mapping t p job =
      let st = read_state job in
      let p' : Poll = record p { statuses = (t, st) ∷ p.statuses } in
      if str_eq st.status "failed"
      then pure (record p' { failed_now = some (failure_of job) }, false)
      else if str_eq st.status "completed"
      then fetch_clip i mapping t p'
      else pure (p', true)

  -- One turn of the loop.
  unfoldable pub poll_task : ℕ → List (String × Fields) → String → Poll → Exec (Poll × Bool)
  unfolding ◌>>=◌ see_answer
  poll_task i mapping t p =
      if one_of t p.existing
      then pure (
        record p {
          statuses = (t, record { status = "completed"; progress = some 100 }) ∷ p.statuses;
        },
        true,
      )
      else attempt (sv.retrieve_video t) >>= see_answer i mapping t p

  -- The loop, up to its `break`.
  unfoldable pub poll_tasks : ℕ → List (String × Fields) → List String → Poll → Exec Poll
  unfolding ◌>>=◌ poll_task
  poll_tasks i mapping [] p = pure p
  poll_tasks i mapping (t ∷ ts) p =
      poll_task i mapping t p >>= λ r. if r.1 then poll_tasks i mapping ts r.0 else pure r.0

  -- The percentage of one task in `overall_progress`.
  unfoldable pub task_percent : Poll → String → ℕ
  task_percent p t = elim (state_of t p.statuses) [
    | none ↦ if one_of t p.existing then 100 else 0
    | some st ↦
        if str_eq st.status "completed" || one_of t p.existing
        then 100
        else elim st.progress [ none ↦ 0 | some n ↦ min 100 n ]
  ]

  unfoldable pub sum_percent : Poll → List String → ℕ
  unfolding task_percent
  sum_percent p [] = 0
  sum_percent p (t ∷ ts) = task_percent p t + sum_percent p ts

  -- `int(sum(pct_values) / len(pct_values))`
  unfoldable pub overall_progress : Poll → List String → Option ℕ
  unfolding sum_percent
  overall_progress p [] = none
  overall_progress p (t ∷ ts) = some (sum_percent p (t ∷ ts) / suc (length ts))

  -- The clips with a uri that were there at the start, and those stored now.
  unfoldable pub clip_count : List Artifact → Poll → ℕ
  unfolding select
  clip_count artifacts p =
      length (select (λ a. is_type video_clip a && some_text a.uri) artifacts) + p.completed_now

  abbrev num_or_null : Option ℕ → Json
  num_or_null none = Json.null
  num_or_null (some n) = Json.num n

  unfoldable pub sora_progress : ℕ → ℕ → Option ℕ → Json
  sora_progress expected ready progress = Json.obj (
      Fields.field "expected" (Json.num expected) (
        Fields.field "ready" (Json.num ready) (
          Fields.field "progress_percent" (num_or_null progress)
            (Fields.field "checked_at" (Json.str sv.now_text) Fields.end))))

  unfoldable pub waiting_reason : ℕ → ℕ → String
  unfolding text_of
  waiting_reason ready expected =
      "Waiting for OpenAI video jobs ("
      <> text_of sv (Json.num ready)
      <> "/"
      <> text_of sv (Json.num expected)
      <> " clips ready)"

  -- After the loop: a failed task fails the run; enough clips move it on; else the job is to run
  -- again. Each way commits.
  unfoldable pub conclude : ℕ → Run → ℕ → ℕ → Option String → Exec Unit
  unfolding ◌>>=◌ fail_run update_run enqueue_resume commit waiting_reason idempotency_resume_videos
  conclude i run expected ready (some message) = do fail_run sv i message; commit
  conclude i run expected ready none =
      if leb expected ready
      then (do
        (if is_status RunStatus.awaiting_video_generation run
            then update_run sv i
                (Change.status_text (Runs.Status.value RunStatus.awaiting_render) ∷ [])
            else pure tt)
        enqueue_resume sv JobTypes.resume_videos i Fields.end
            (idempotency_resume_videos sv.uuid_text i)
        commit)
      else (do
        commit
        end_with (reschedule (sv.job_poll_interval + 10 * second) (waiting_reason ready expected)))

  -- After the loop: the telemetry, and the conclusion.
  unfoldable pub report : ℕ → Run → ℕ → List Artifact → List String → Poll → Exec Unit
  unfolding ◌>>=◌ clip_count overall_progress add_run_artifact sora_progress conclude
  report i run expected artifacts pending p = do
    let ready = clip_count artifacts p
    add_run_artifact sv i "sora_progress"
        (sora_progress expected ready (overall_progress p pending))
    conclude i run expected ready p.failed_now

  abbrev pub first_poll : List Artifact → Poll
  first_poll artifacts = record {
    existing = existing_task_ids artifacts;
    statuses = [];
    completed_now = 0;
    failed_now = none;
  }

  unfoldable pub poll_artifacts : ℕ → Run → List Artifact → Exec Unit
  unfolding ◌>>=◌ read_manifest pending_task_ids existing_task_ids poll_tasks report
  poll_artifacts i run artifacts =
      let (expected, mapping) = read_manifest artifacts in
      let pending = pending_task_ids run mapping in
      if truthy_list pending
      then poll_tasks i mapping pending (first_poll artifacts)
        >>= report i run expected artifacts pending
      else end_with (raised "sora.poll could not determine pending task ids for run")

  unfoldable pub poll_run : ℕ → Run → Exec Unit
  unfolding ◌>>=◌ get_artifacts poll_artifacts
  poll_run i run = get_artifacts i >>= poll_artifacts i run

  unfoldable pub sora_poll : Option ℕ → Exec Unit
  unfolding ◌>>=◌ effective_sora_provider get_run is_terminal poll_run
  sora_poll none = end_with (raised "sora.poll requires run_id")
  sora_poll (some i) =
      if is_real (effective_sora_provider sv.provider_settings)
      then (do
        run ← get_run sv i
        if is_terminal run
            then pure tt
            else if is_status RunStatus.awaiting_video_generation run
            then poll_run i run
            else pure tt)
      else pure tt
