-- ===== src/Storage/Artifacts/SoraTasks.antt =====
-- `find_run_for_sora_task_async` and `count_cached_videos_by_topic` of `ArtifactRepository` in
-- src/myloware/storage/repositories.py. `json.loads`, `str.lower` and the database's LIKE (a column
-- contains a text) are parameters.
use mylo_ware.Common.{
  ℕ, suc, String, ◌<>◌, Bool, false, ◌&&◌, Option, none, some, List, [], ◌∷◌, ltb, str_eq,
  if◌then◌else◌, is_some, select, sort_by,
}
use mylo_ware.Common.Text.{strip}
use mylo_ware.Common.Json
use mylo_ware.Common.Json.{Json, Fields, is_text}
use mylo_ware.Storage.Artifacts.{Artifact, value, clip_manifest, video_clip}

abbrev meta_of : Artifact → Fields
meta_of a = elim a.metadata [ none ↦ Fields.end | some fs ↦ fs ]

abbrev content_has : (String → String → Bool) → String → Artifact → Bool
content_has like needle a = elim a.content [ none ↦ false | some c ↦ like c needle ]

-- The metadata of the task in the manifest, if that is one and maps the task to an object.
abbrev mapped : String → Option Json → Option Fields
mapped t (some (Json.obj fs)) = elim (Json.get t fs) [ some (Json.obj o) ↦ some o | _ ↦ none ]
mapped t _ = none

unfoldable pub task_meta : (String → Option Json) → String → Artifact → Option Fields
unfolding is_text Json.get
task_meta loads t a =
    if is_text "type" "task_metadata_mapping" (meta_of a)
    then mapped t
        (loads (elim a.content [ none ↦ "{}" | some c ↦ if str_eq c "" then "{}" else c ]))
    else none

abbrev found_in : Artifact → Option Fields → Option (ℕ × Fields) → Option (ℕ × Fields)
found_in a none later = later
found_in a (some o) later = some (a.run_id, o)

unfoldable pub first_task : (String → Option Json) → String → List Artifact → Option (ℕ × Fields)
unfolding task_meta
first_task loads t [] = none
first_task loads t (a ∷ rest) = found_in a (task_meta loads t a) (first_task loads t rest)

-- The candidates, the newest first.
unfoldable pub candidates : (String → String → Bool) → String → List Artifact → List Artifact
unfolding select sort_by
candidates like t artifacts =
    sort_by (λ a b. ltb b.created_at a.created_at)
      (select
        (λ a.
          str_eq a.artifact_type (value clip_manifest) && content_has like ("\"" <> t <> "\"") a)
        artifacts)

unfoldable pub find_run_for_sora_task :
    (String → Option Json) → (String → String → Bool) → String → List Artifact → Option (ℕ × Fields)
unfolding strip candidates first_task
find_run_for_sora_task loads like task_id artifacts =
    let t = strip task_id in
    if str_eq t "" then none else first_task loads t (candidates like t artifacts)

-- `count_cached_videos_by_topic`; `none` is the AttributeError of a topic that is no text.
abbrev same_topic : (String → String) → String → Artifact → Option Bool
same_topic lower topic a = elim (Json.get "topic" (meta_of a)) [
  | none ↦ some (str_eq (lower "") (lower topic))
  | some (Json.str s) ↦ some (str_eq (lower s) (lower topic))
  | some _ ↦ none
]

abbrev plus : Option Bool → Option ℕ → Option ℕ
plus none n = none
plus (some b) none = none
plus (some b) (some n) = some (if b then suc n else n)

count_all : (String → String) → String → List Artifact → Option ℕ
unfolding Json.get
count_all lower topic [] = some 0
count_all lower topic (a ∷ rest) = plus (same_topic lower topic a) (count_all lower topic rest)

unfoldable pub count_cached_videos_by_topic : (String → String) → String → List Artifact → Option ℕ
unfolding select count_all
count_cached_videos_by_topic lower topic artifacts =
    count_all lower topic
      (select (λ a. str_eq a.artifact_type (value video_clip) && is_some a.uri) artifacts)
