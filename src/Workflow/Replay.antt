-- ===== src/Workflow/Replay.antt =====
-- src/myloware/workflows/dlq_replay.py: a dead letter is replayed into its run. `json.loads` and the
-- resume operations of the graph are parameters.
pub mod Laws
use Prim.Native.String.{String}
use mylo_ware.Common.{
  ℕ, Bool, true, false, Option, none, some, ◌⊎◌, inl, inr, str_eq, if◌then◌else◌,
}
use mylo_ware.Common.Json
use mylo_ware.Common.Json.{Json, Items, Fields, get_true, truthy}
use mylo_ware.Storage.DeadLetters.{DeadLetter}

-- The `ValueError` in its cases, an attribute or a conversion that Python refuses, and an exception
-- of the resume operation.
pub data Failure : Type 0 where
  not_an_object missing_videos missing_video unknown_source : Failure
  attribute_error type_error resume_failed : Failure

-- `list(text)`: its characters.
characters : String → Items
characters String.[] = Items.nil
characters (String.◌∷◌ c s) = Items.cons (Json.str (String.◌∷◌ c String.[])) (characters s)

-- `list(d)`: its keys.
keys : Fields → Items
keys Fields.end = Items.nil
keys (Fields.field k v fs) = Items.cons (Json.str k) (keys fs)

-- `list(value)`
unfoldable pub list_of : Json → Failure ⊎ Items
unfolding characters keys
list_of (Json.arr xs) = inr xs
list_of (Json.str s) = inr (characters s)
list_of (Json.obj fs) = inr (keys fs)
list_of _ = inl type_error

-- The last two ways to find urls: `data.info.resultUrls`, an `info` that is no object gives none.
urls_of_info : Option Json → Failure ⊎ Items
unfolding get_true list_of
urls_of_info (some (Json.obj info)) = elim (get_true "resultUrls" info) [
  | none ↦ inr Items.nil
  | some v ↦ list_of v
]
urls_of_info _ = inr Items.nil

-- `data.resultJson`, if it is a text that `loads` reads; `none` goes on to `info`.
urls_of_result : (String → Option Json) → Option Json → Option (Failure ⊎ Items)
unfolding get_true list_of
urls_of_result loads (some (Json.str s)) = elim (loads s) [
  | none ↦ none
  | some (Json.obj parsed) ↦ elim (get_true "resultUrls" parsed) [
    | none ↦ none
    | some v ↦ some (list_of v)
  ]
  | some _ ↦ some (inl attribute_error)
]
urls_of_result loads _ = none

urls_of_data : (String → Option Json) → Option Json → Failure ⊎ Items
unfolding urls_of_info urls_of_result get_true Json.get
urls_of_data loads none = inr Items.nil
urls_of_data loads (some (Json.obj fs)) = elim (urls_of_result loads (Json.get "resultJson" fs)) [
  | some found ↦ found
  | none ↦ urls_of_info (get_true "info" fs)
]
urls_of_data loads (some _) = inl attribute_error

-- `_extract_sora_video_urls`
unfoldable pub extract_sora_video_urls : (String → Option Json) → Fields → Failure ⊎ Items
unfolding get_true list_of urls_of_data
extract_sora_video_urls loads payload = elim (get_true "video_urls" payload) [
  | some v ↦ list_of v
  | none ↦ elim (get_true "video_clips" payload) [
    | some v ↦ list_of v
    | none ↦ urls_of_data loads (get_true "data" payload)
  ]
]

-- `_extract_remotion_video_url`, as far as its value is true.
unfoldable pub extract_remotion_video_url : Fields → Option Json
unfolding get_true
extract_remotion_video_url payload = elim (get_true "video_url" payload) [
  | some v ↦ some v
  | none ↦ get_true "final_video_url" payload
]

-- The call of `resume_after_videos` or of `resume_after_render`, with its run.
pub data Resume : Type 0 where
  after_videos : ℕ → Resume
  after_render : ℕ → Json → Resume

-- The outcome: the urls that it reports, or the exception.
pub data Outcome : Type 0 where
  replayed_videos : Items → Outcome
  replayed_render : Json → Outcome
  failed : Failure → Outcome

-- The call that is made, if any, and the outcome; `resumes` says whether a call comes back.
unfoldable pub replay_videos : (Resume → Bool) → ℕ → Failure ⊎ Items → Option Resume × Outcome
replay_videos resumes run_id (inl e) = (none, failed e)
replay_videos resumes run_id (inr Items.nil) = (none, failed missing_videos)
replay_videos resumes run_id (inr (Items.cons v vs)) = (
  some (after_videos run_id),
  if resumes (after_videos run_id) then replayed_videos (Items.cons v vs) else failed resume_failed,
)

unfoldable pub replay_render : (Resume → Bool) → ℕ → Option Json → Option Resume × Outcome
replay_render resumes run_id none = (none, failed missing_video)
replay_render resumes run_id (some v) = (
  some (after_render run_id v),
  if resumes (after_render run_id v) then replayed_render v else failed resume_failed,
)

-- `payload or {}`; `none` is a payload that is no object.
unfoldable pub object_of : Json → Option Fields
unfolding truthy
object_of (Json.obj fs) = some fs
object_of v = if truthy v then none else some Fields.end

-- `replay_dead_letter`
unfoldable pub replay_dead_letter :
    (String → Option Json) → (Resume → Bool) → DeadLetter → Option Resume × Outcome
unfolding object_of extract_sora_video_urls extract_remotion_video_url replay_videos replay_render
replay_dead_letter loads resumes d = elim (object_of d.payload) [
  | none ↦ (none, failed not_an_object)
  | some payload ↦
      if str_eq d.source "sora"
      then replay_videos resumes d.run_id (extract_sora_video_urls loads payload)
      else if str_eq d.source "remotion"
      then replay_render resumes d.run_id (extract_remotion_video_url payload)
      else (none, failed unknown_source)
]
