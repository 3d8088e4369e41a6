-- ===== src/Workers/Handlers/SoraWebhook.antt =====
-- The branch `webhook.sora` of `handle_job` in src/myloware/workers/handlers.py.
use mylo_ware.Common.{
  ℕ, String, ◌<>◌, Bool, true, false, ◌&&◌, ◌||◌, Option, none, some, ◌⊎◌, inl, inr, List, [], ◌∷◌,
  ◌==◌, leb, length, any, str_eq, if◌then◌else◌, select,
}
use mylo_ware.Common.Text.{rstrip_slash}
use mylo_ware.Common.Json
use mylo_ware.Common.Json.{Json, Items, Fields, truthy, get_true, is_text}
use mylo_ware.Config.ProviderModes.{ProviderMode, fake, effective_sora_provider}
use mylo_ware.Storage.Runs.Status
use mylo_ware.Storage.Runs.Status.{RunStatus}
use mylo_ware.Storage.Runs.{Run, Change}
use mylo_ware.Storage.Runs
use mylo_ware.Storage.Artifacts.{Artifact, video_clip, clip_manifest}
use mylo_ware.Workers.JobTypes
use mylo_ware.Workers.JobTypes.{idempotency_resume_videos}
use mylo_ware.Workers.Session.{
  Exec, pure, end_with, raised, select_from, attempt, ◌>>=◌, ◌>>◌, or_raise,
}
use mylo_ware.Workers.Handlers.Services.{
  Services, text_of, text_or, int_of, safe_json, some_text, is_status, is_type, meta_of, has_meta,
  last, get_artifacts, update_run, fail_run, create_artifact, enqueue_resume,
}

-- What the handler reads of the payload.
pub record Callback : Type 0 where
  pub code : Option ℕ
  pub state : Option Json
  pub status_msg : String
  pub task_id : Option Json
  pub event_type : Option String
  pub video_index : ℕ
  pub video_urls : Items
  pub metadata : Fields

module _ (sv : Services) where
  -- `video_urls`: a list, or a text that reads as one, or a text that stands for itself.
  abbrev urls_of_text : String → Option Json → Items
  urls_of_text s none = Items.cons (Json.str s) Items.nil
  urls_of_text s (some (Json.arr xs)) = xs
  urls_of_text s (some _) = Items.nil

  unfoldable pub urls_of : Option Json → Items
  urls_of (some (Json.arr xs)) = xs
  urls_of (some (Json.str s)) = urls_of_text s (sv.loads s)
  urls_of _ = Items.nil

  abbrev int_of_maybe : Option Json → Option ℕ
  int_of_maybe none = none
  int_of_maybe (some v) = int_of sv v

  abbrev text_if : Option Json → Option String
  text_if (some (Json.str s)) = some s
  text_if _ = none

  -- `int(payload.get("video_index") or 0)`
  abbrev index_of : Option Json → String ⊎ ℕ
  index_of none = inr 0
  index_of (some v) = or_raise (sv.int_message v) (int_of sv v)

  unfoldable pub read_callback : Fields → String ⊎ Callback
  unfolding urls_of int_of text_or safe_json Json.get get_true
  read_callback payload = elim (index_of (get_true "video_index" payload)) [
    | inl message ↦ inl message
    | inr i ↦ inr (record {
      code = int_of_maybe (Json.get "code" payload);
      state = Json.get "state" payload;
      status_msg = text_or sv "status_msg" "" payload;
      task_id = Json.get "task_id" payload;
      event_type = text_if (Json.get "event_type" payload);
      video_index = i;
      video_urls = urls_of (get_true "video_urls" payload);
      metadata = safe_json sv (Json.get "metadata" payload);
    })
  ]

  abbrev is_code : Option ℕ → Bool
  is_code none = false
  is_code (some n) = if n == 200 then false else true

  abbrev is_word : String → Option String → Bool
  is_word word none = false
  is_word word (some s) = str_eq s word

  unfoldable pub is_failure : Callback → Bool
  is_failure c =
      is_code c.code
      || elim c.state [ some (Json.str s) ↦ str_eq s "fail" | _ ↦ false ]
      || is_word "video.failed" c.event_type

  unfoldable pub is_completion : Callback → Bool
  unfolding truthy
  is_completion c = truthy (Json.arr c.video_urls) || is_word "video.completed" c.event_type

  -- `status_msg or (event_type or "Video generation failed")`
  unfoldable pub error_msg : Callback → String
  error_msg c = if some_text (some c.status_msg) then c.status_msg else elim c.event_type [
    | none ↦ "Video generation failed"
    | some e ↦ if str_eq e "" then "Video generation failed" else e
  ]

  -- A clip of the task is stored already; a task id that is false is not looked for.
  unfoldable pub is_stored : Option Json → List Artifact → Bool
  unfolding has_meta truthy
  is_stored none existing = false
  is_stored (some task_id) existing =
      truthy task_id && any (has_meta sv video_clip "task_id" task_id) existing

  abbrev true_text : Option Json → String
  true_text none = ""
  true_text (some v) = if truthy v then text_of sv v else ""

  -- Where the clip is: the first url; else, for a completed video, a file of the fake service, or
  -- the downloaded one.
  fake_url : Option Json → Option String
  unfolding truthy rstrip_slash text_of
  fake_url none = none
  fake_url (some task_id) =
      let base = rstrip_slash sv.webhook_base_url in
      if truthy task_id && some_text (some base)
      then some (base <> "/v1/media/sora/" <> text_of sv task_id <> ".mp4")
      else none

  first_text : Items → Option String
  unfolding text_of
  first_text Items.nil = none
  first_text (Items.cons v vs) = some (text_of sv v)

  is_fake : ProviderMode → Bool
  is_fake fake = true
  is_fake _ = false

  downloaded : String ⊎ String → String ⊎ Option String
  downloaded (inl message) = inl message
  downloaded (inr uri) = inr (some uri)

  unfoldable pub original_url : Callback → String ⊎ Option String
  unfolding fake_url first_text is_fake downloaded truthy text_of effective_sora_provider
  original_url c =
      if some_text (first_text c.video_urls)
      then inr (first_text c.video_urls)
      else if is_word "video.completed" c.event_type
      then (if is_fake (effective_sora_provider sv.provider_settings)
          then inr (fake_url c.task_id)
          else downloaded (sv.download (true_text c.task_id)))
      else inr (first_text c.video_urls)

  unfoldable pub copy_key : String → Fields → Fields → Fields
  unfolding Json.get Json.put
  copy_key key metadata meta = elim (Json.get key metadata) [
    | none ↦ meta
    | some v ↦ Json.put key v meta
  ]

  unfoldable pub clip_metadata : Callback → Fields
  unfolding copy_key
  clip_metadata c = copy_key "object_name" c.metadata (
      copy_key "sign" c.metadata (
        copy_key "topic" c.metadata (
          Fields.field "task_id" (elim c.task_id [ none ↦ Json.null | some v ↦ v ])
            (Fields.field "video_index" (Json.num c.video_index)
              (Fields.field "source" (Json.str "sora") Fields.end)))))

  -- The latest manifest of the tasks, and the number of clips it asks for (1 if it does not say).
  unfoldable pub is_manifest : Artifact → Bool
  unfolding is_text
  is_manifest a = is_type clip_manifest a && is_text "type" "task_metadata_mapping" (meta_of a)

  abbrev expected_of : Option Json → String ⊎ ℕ
  expected_of none = inr 1
  expected_of (some v) = or_raise (sv.int_message v) (int_of sv v)

  unfoldable pub expected_clips : List Artifact → String ⊎ ℕ
  unfolding is_manifest select int_of get_true
  expected_clips artifacts = elim (last (select is_manifest artifacts)) [
    | none ↦ inr 1
    | some a ↦ expected_of (get_true "task_count" (meta_of a))
  ]

  unfoldable pub count_clips : List Artifact → ℕ
  unfolding select
  count_clips artifacts = length (select (is_type video_clip) artifacts)

  -- All clips are there: the run moves on, and is resumed.
  unfoldable pub clips_ready : ℕ → Run → Exec Unit
  unfolding ◌>>=◌ update_run enqueue_resume idempotency_resume_videos
  clips_ready i run =
      if is_status RunStatus.failed run
      then pure tt
      else (if is_status RunStatus.awaiting_video_generation run
          then update_run sv i
              (Change.status_text (Runs.Status.value RunStatus.awaiting_render) ∷ [])
          else pure tt)
        >> enqueue_resume sv JobTypes.resume_videos i Fields.end
            (idempotency_resume_videos sv.uuid_text i)

  -- The run is read again, with a lock, and moves on when all clips are there.
  unfoldable pub check_run : ℕ → Exec Unit
  unfolding ◌>>=◌ get_artifacts Runs.get expected_clips count_clips clips_ready
  check_run i = do
    found ← select_from (λ t. Runs.get i t.runs)
    run ← attempt (or_raise "Run not found" found)
    artifacts ← get_artifacts i
    expected ← attempt (expected_clips artifacts)
    if leb expected (count_clips artifacts) then clips_ready i run else pure tt

  unfoldable pub keep_clip : ℕ → Callback → String → Exec Unit
  unfolding ◌>>=◌ create_artifact clip_metadata check_run
  keep_clip i c uri = do
    create_artifact sv sv.artifact_id i "producer" video_clip uri (clip_metadata c)
    check_run i

  -- `transcode_video` found no video, or an empty one.
  unfoldable pub transcode_failed : ℕ → Exec Unit
  unfolding fail_run
  transcode_failed i = fail_run sv i "Transcode failed (ffmpeg missing or codec error)"

  abbrev pub keep_transcoded : ℕ → Callback → Option String → Exec Unit
  keep_transcoded i c none = transcode_failed i
  keep_transcoded i c (some uri) = if str_eq uri "" then transcode_failed i else keep_clip i c uri

  -- The callback of a finished video, from the transcoding on.
  unfoldable pub store_clip : ℕ → Callback → String → Exec Unit
  unfolding ◌>>=◌ transcode_failed keep_clip
  store_clip i c url = do
    transcoded ← attempt (sv.transcode url i c.video_index)
    keep_transcoded i c transcoded

  unfoldable pub no_video : ℕ → Exec Unit
  unfolding fail_run
  no_video i = fail_run sv i "Sora webhook missing video URL and no downloadable content available"

  abbrev pub store_original : ℕ → Callback → Option String → Exec Unit
  store_original i c none = no_video i
  store_original i c (some url) = if str_eq url "" then no_video i else store_clip i c url

  unfoldable pub complete_video : ℕ → Callback → Exec Unit
  unfolding ◌>>=◌ is_stored original_url store_clip get_artifacts no_video
  complete_video i c = do
    existing ← get_artifacts i
    if is_stored c.task_id existing
        then pure tt
        else attempt (original_url c) >>= store_original i c

  unfoldable pub sora_callback : ℕ → Callback → Exec Unit
  unfolding is_failure is_completion error_msg fail_run complete_video
  sora_callback i c =
      if is_failure c
      then fail_run sv i ("OpenAI Sora error: " <> error_msg c)
      else if is_completion c
      then complete_video i c
      else pure tt

  unfoldable pub webhook_sora : Option ℕ → Fields → Exec Unit
  unfolding ◌>>=◌ read_callback sora_callback
  webhook_sora none payload = end_with (raised "webhook.sora requires run_id")
  webhook_sora (some i) payload = do c ← attempt (read_callback payload); sora_callback i c
