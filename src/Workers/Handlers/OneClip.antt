-- ===== src/Workers/Handlers/OneClip.antt =====
-- The handlers of src/myloware/workers/handlers.py store at most one clip for each task of a run: those
-- that store one.
use mylo_ware.Common.{
  ℕ, String, ◌≡◌, refl, sym, ap, ◌∙◌, false, Option, none, some, inl, inr, List, arith, str_eq, any,
  any-same, if◌then◌else◌, Option-cases,
}
use mylo_ware.Common.Json
use mylo_ware.Common.Json.{Json, Fields, truthy, get-put}
use mylo_ware.Storage.Artifacts.{Artifact, video_clip, get_by_run}
use mylo_ware.Storage.Jobs.{NewJob}
use mylo_ware.Storage.Runs
use mylo_ware.Storage.Runs.{Run}
use mylo_ware.Workers.Session.{Session, Exec, pure, select_from, attempt, ◌>>=◌, try_enqueue}
use mylo_ware.Workers.Session.Preserves.{
  Preserves, Both, JobsFree, Preserves-pure, Preserves-end_with, Preserves-select_from,
  Preserves-attempt, Preserves-if, Preserves-bind, Preserves-write, Preserves-commit,
  Preserves-try_enqueue, Preserves-call, session_rules,
}
use mylo_ware.Workers.Session.After.{
  After, After-bind, After-pure, After-select_from, After-attempt, After-if, After-write,
  After-Preserves, Preserves-After,
}
use mylo_ware.Workers.Handlers.Services.{
  Services, has_meta, get_run, get_artifacts, update_run, fail_run, add_run_artifact,
  create_artifact, enqueue_resume,
}
use mylo_ware.Workers.Handlers.Clips.{
  OneClip, task_in, with_trace_task, OneClip-append, task_of, stored_clip, has_task, any-get_by_run,
  has_meta-has_task,
}
use mylo_ware.Workers.Handlers.SoraWebhook.{
  Callback, clip_metadata, copy_key, sora_callback, complete_video, store_clip, store_original,
  keep_clip, check_run, keep_transcoded, transcode_failed, no_video, clips_ready, is_stored,
  original_url, webhook_sora,
}

OneClip-try_enqueue :
    (message : String) (n : NewJob) (now : ℕ) → Preserves (Both OneClip) (try_enqueue message n now)
OneClip-try_enqueue message n now = Preserves-try_enqueue OneClip message n now (λ t jobs h. h)

-- Writes to the runs and the jobs keep the clips as they are.
module _ (sv : Services) where
  pub update_run-OneClip :
      (i : ℕ) (cs : List Runs.Change) → Preserves (Both OneClip) (update_run sv i cs)
  unfolding update_run
  update_run-OneClip i cs = Preserves-write OneClip _ (λ t h. h)

  pub fail_run-OneClip : (i : ℕ) (error : String) → Preserves (Both OneClip) (fail_run sv i error)
  unfolding fail_run
  fail_run-OneClip i error = search (update_run-OneClip)

  pub add_run_artifact-OneClip :
      (i : ℕ) (key : String) (v : Json) → Preserves (Both OneClip) (add_run_artifact sv i key v)
  unfolding add_run_artifact
  add_run_artifact-OneClip i key v = Preserves-write OneClip _ (λ t h. h)

  pub enqueue_resume-OneClip :
      (job_type : String) (i : ℕ) (payload : Fields) (key : String)
      → Preserves (Both OneClip) (enqueue_resume sv job_type i payload key)
  unfolding enqueue_resume
  enqueue_resume-OneClip job_type i payload key = search (session_rules, OneClip-try_enqueue)

  pub get_run-OneClip : (i : ℕ) → Preserves (Both OneClip) (get_run sv i)
  unfolding get_run
  get_run-OneClip i = search (session_rules)

  pub get_artifacts-OneClip : (i : ℕ) → Preserves (Both OneClip) (get_artifacts i)
  unfolding get_artifacts
  get_artifacts-OneClip i = Preserves-select_from OneClip _

pub ruleset clip_rules = (
  session_rules, update_run-OneClip, fail_run-OneClip, add_run_artifact-OneClip,
  enqueue_resume-OneClip, get_run-OneClip, get_artifacts-OneClip,
)

module _ (sv : Services) where
  pub clips_ready-OneClip : (i : ℕ) (run : Run) → Preserves (Both OneClip) (clips_ready sv i run)
  unfolding clips_ready
  clips_ready-OneClip i run = search (clip_rules)

-- No clip of the task that the value names, if it names one, is stored for the run.
abbrev Fits : ℕ → Option Json → Session → Type 0
Fits i v s = (t : String) → task_in v ≡ some t → stored_clip i t s.tables.artifacts ≡ false

abbrev Ready : ℕ → Option Json → Session → Type 0
Ready i v s = Both OneClip s × Fits i v s

pub create_artifact-OneClip :
    (sv : Services) (id i : ℕ) (persona uri : String) (meta : Fields) (s : Session)
    → Ready i (Json.get "task_id" meta) s
    → After
        (λ (a : Unit). Both OneClip)
        (Both OneClip)
        (create_artifact sv id i persona video_clip uri meta s)
unfolding create_artifact task_of
create_artifact-OneClip sv id i persona uri meta s (h, fits) =
    After-write _ s
      (
        OneClip-append s.tables.artifacts _
            (λ t e. fits t (sym (ap task_in (with_trace_task sv.trace_id meta)) ∙ e)) h.0,
        h.1,
      )
      h

copied_task :
    (sv : Services) (key : String) (metadata meta : Fields)
    → str_eq key "task_id" ≡ false
    → Json.get "task_id" (copy_key sv key metadata meta) ≡ Json.get "task_id" meta
unfolding copy_key
copied_task sv key metadata meta h = elim (Option-cases (Json.get key metadata)) [
  | inl e ↦ rw (e, copy_key) refl
  | inr (v, e) ↦ rw (e, copy_key) (ground (arith, h, get-put key "task_id" v meta))
]

clip_metadata_task :
    (sv : Services) (c : Callback)
    → task_in (Json.get "task_id" (clip_metadata sv c)) ≡ task_in c.task_id
unfolding clip_metadata Json.get
clip_metadata_task sv c = ground (
  arith,
  copied_task sv "object_name" c.metadata,
  copied_task sv "sign" c.metadata,
  copied_task sv "topic" c.metadata,
)

no_clip :
    (sv : Services) (i : ℕ) (u : String) (artifacts : List Artifact)
    → str_eq u "" ≡ false
    → any (has_meta sv video_clip "task_id" (Json.str u)) (get_by_run i artifacts) ≡ false
    → stored_clip i u artifacts ≡ false
unfolding stored_clip
no_clip sv i u artifacts e h =
    sym (any-get_by_run (has_task u) i artifacts)
    ∙ sym (any-same _ (has_task u) (get_by_run i artifacts) (λ a. has_meta-has_task sv u a e))
    ∙ h

is_stored-Fits :
    (sv : Services) (i : ℕ) (v : Option Json) (s : Session)
    → is_stored sv v (get_by_run i s.tables.artifacts) ≡ false
    → Fits i v s
unfolding is_stored truthy
is_stored-Fits sv i none s h t e = absurd (cc)
is_stored-Fits sv i (some (Json.str u)) s h t e =
    let (filled, same) : (str_eq u "" ≡ false) × (u ≡ t) = ground (arith, e) in
    rw (sym same) (no_clip sv i u s.tables.artifacts filled (ground (arith, h, filled)))
is_stored-Fits sv i (some Json.null) s h t e = absurd (cc)
is_stored-Fits sv i (some (Json.bool b)) s h t e = absurd (cc)
is_stored-Fits sv i (some (Json.num n)) s h t e = absurd (cc)
is_stored-Fits sv i (some (Json.arr xs)) s h t e = absurd (cc)
is_stored-Fits sv i (some (Json.obj fs)) s h t e = absurd (cc)

module _ (sv : Services) (i : ℕ) (c : Callback) where
  check_run-OneClip : Preserves (Both OneClip) (check_run sv i)
  unfolding check_run
  check_run-OneClip = search (clip_rules, clips_ready-OneClip) depth 10

  keep_clip-OneClip :
      (uri : String) (s : Session)
      → Ready i c.task_id s
      → After (λ (a : Unit). Both OneClip) (Both OneClip) (keep_clip sv i c uri s)
  unfolding keep_clip
  keep_clip-OneClip uri s (h, fits) =
      After-bind {P = λ (a : Unit). Both OneClip}
        (create_artifact sv sv.artifact_id i "producer" video_clip uri (clip_metadata sv c))
        (λ a. check_run sv i) s
        (create_artifact-OneClip sv sv.artifact_id i "producer" uri (clip_metadata sv c) s
          (h, λ t e. fits t (sym (clip_metadata_task sv c) ∙ e)))
        λ a s' k. After-Preserves (check_run sv i) s' check_run-OneClip k

  transcode_failed-OneClip : Preserves (Both OneClip) (transcode_failed sv i)
  unfolding transcode_failed
  transcode_failed-OneClip = search (clip_rules)

  no_video-OneClip : Preserves (Both OneClip) (no_video sv i)
  unfolding no_video
  no_video-OneClip = search (clip_rules)

  keep_transcoded-OneClip :
      (transcoded : Option String) (s : Session)
      → Ready i c.task_id s
      → After (λ (a : Unit). Both OneClip) (Both OneClip) (keep_transcoded sv i c transcoded s)
  keep_transcoded-OneClip none s h = After-Preserves _ s transcode_failed-OneClip h.0
  keep_transcoded-OneClip (some uri) s h =
      After-if (str_eq uri "") _ _ s (λ e. After-Preserves _ s transcode_failed-OneClip h.0)
        (λ e. keep_clip-OneClip uri s h)

  store_clip-OneClip :
      (url : String) (s : Session)
      → Ready i c.task_id s
      → After (λ (a : Unit). Both OneClip) (Both OneClip) (store_clip sv i c url s)
  unfolding store_clip
  store_clip-OneClip url s h =
      After-bind {P = λ (a : Option String). Ready i c.task_id}
        (attempt (sv.transcode url i c.video_index)) (keep_transcoded sv i c) s
        (After-attempt (sv.transcode url i c.video_index) s (λ a e. h) h.0)
        λ transcoded s' k. keep_transcoded-OneClip transcoded s' k

  store_original-OneClip :
      (original : Option String) (s : Session)
      → Ready i c.task_id s
      → After (λ (a : Unit). Both OneClip) (Both OneClip) (store_original sv i c original s)
  store_original-OneClip none s h = After-Preserves _ s no_video-OneClip h.0
  store_original-OneClip (some url) s h =
      After-if (str_eq url "") _ _ s (λ e. After-Preserves _ s no_video-OneClip h.0)
        (λ e. store_clip-OneClip url s h)

  abbrev pass_or_complete : List Artifact → Exec Unit
  pass_or_complete existing =
      if is_stored sv c.task_id existing
      then pure tt
      else attempt (original_url sv c) >>= store_original sv i c

  complete_video-OneClip : Preserves (Both OneClip) (complete_video sv i c)
  unfolding complete_video get_artifacts
  complete_video-OneClip = Preserves-After _ λ s h.
      After-bind
        {P = λ (xs : List Artifact) s'. Both OneClip s' × (xs ≡ get_by_run i s'.tables.artifacts)}
        (select_from (λ t. get_by_run i t.artifacts)) (λ existing. pass_or_complete existing) s
        (After-select_from (λ t. get_by_run i t.artifacts) s (h, refl) h)
        λ existing s' (h', same).
          After-if (is_stored sv c.task_id existing) (pure tt)
            (attempt (original_url sv c) >>= store_original sv i c) s' (λ e. After-pure tt s' h')
            λ e.
              After-bind {P = λ (a : Option String). Ready i c.task_id}
                (attempt (original_url sv c)) (store_original sv i c) s'
                (After-attempt (original_url sv c) s'
                  (λ a q. (
                    h',
                    is_stored-Fits sv i c.task_id s' (ap (is_stored sv c.task_id) (sym same) ∙ e),
                  ))
                  h')
                λ original s'' k. store_original-OneClip original s'' k

  pub sora_callback-OneClip : Preserves (Both OneClip) (sora_callback sv i c)
  unfolding sora_callback
  sora_callback-OneClip = search (clip_rules, complete_video-OneClip)

pub webhook_sora-OneClip :
    (sv : Services) (run_id : Option ℕ) (payload : Fields)
    → Preserves (Both OneClip) (webhook_sora sv run_id payload)
unfolding webhook_sora
webhook_sora-OneClip sv none payload = Preserves-end_with _
webhook_sora-OneClip sv (some i) payload = search (clip_rules, sora_callback-OneClip)
