-- ===== src/Storage/Artifacts.antt =====
-- The artifact table, `ArtifactType` and `ArtifactRepository` of
-- src/myloware/storage/{models,repositories}.py, and `check_video_cache` of
-- src/myloware/workflows/helpers.py.
pub mod Cache
pub mod CacheLaws
pub mod Repeats
pub mod SoraTasks
use mylo_ware.Common.{
  ℕ, String, Bool, true, false, ◌&&◌, Option, none, some, List, [], ◌∷◌, ◌++◌, ltb, ◌==◌, str_eq,
  if◌then◌else◌, select, sort_by, is_some,
}
use mylo_ware.Common.Json
use mylo_ware.Common.Json.{Json, Fields}

pub data ArtifactType : Type 0 where
  ideas ideas_structured script video_clip clip_manifest : ArtifactType
  sora_request producer_output editor_output publisher_output : ArtifactType
  rendered_video published_url vision_analysis error rejection safety_verdict : ArtifactType

-- `ArtifactType.value`
abbrev pub value : ArtifactType → String
value ideas = "ideas"
value ideas_structured = "ideas_structured"
value script = "script"
value video_clip = "video_clip"
value clip_manifest = "clip_manifest"
value sora_request = "sora_request"
value producer_output = "producer_output"
value editor_output = "editor_output"
value publisher_output = "publisher_output"
value rendered_video = "rendered_video"
value published_url = "published_url"
value vision_analysis = "vision_analysis"
value error = "error"
value rejection = "rejection"
value safety_verdict = "safety_verdict"

pub record Artifact : Type 0 where
  pub id : ℕ
  pub run_id : ℕ
  pub persona : String
  pub artifact_type : String
  pub content : Option String
  pub uri : Option String
  pub metadata : Option Fields
  pub created_at : ℕ

-- What `create` is given, apart from the clock and the new id.
pub record NewArtifact : Type 0 where
  pub id : ℕ
  pub run_id : ℕ
  pub persona : String
  pub artifact_type : ArtifactType
  pub content : Option String
  pub uri : Option String
  pub metadata : Option Fields
  pub trace_id : Option String

abbrev fields_or_empty : Option Fields → Fields
fields_or_empty none = Fields.end
fields_or_empty (some fs) = fs

-- `meta.setdefault("trace_id", trace_id)`, for a trace id that is not empty.
unfoldable pub with_trace : Option String → Fields → Fields
with_trace none meta = meta
with_trace (some t) meta = if str_eq t "" then meta else elim (Json.get "trace_id" meta) [
  | some v ↦ meta
  | none ↦ Json.put "trace_id" (Json.str t) meta
]

unfoldable pub create : NewArtifact → ℕ → List Artifact → Artifact × List Artifact
unfolding with_trace
create n now artifacts =
    let a : Artifact = record {
      id = n.id;
      run_id = n.run_id;
      persona = n.persona;
      artifact_type = value n.artifact_type;
      content = n.content;
      uri = n.uri;
      metadata = some (with_trace n.trace_id (fields_or_empty n.metadata));
      created_at = now;
    } in
    (a, artifacts ++ a ∷ [])

abbrev pub newer : Artifact → Artifact → Bool
newer a b = ltb b.created_at a.created_at

-- `get_by_run`: oldest first.
unfoldable pub get_by_run : ℕ → List Artifact → List Artifact
unfolding select sort_by
get_by_run i artifacts =
    sort_by (λ a b. ltb a.created_at b.created_at) (select (λ a. a.run_id == i) artifacts)

-- `get_latest_artifact_by_type`
unfoldable pub get_latest_artifact_by_type : ℕ → ArtifactType → List Artifact → Option Artifact
unfolding select sort_by
get_latest_artifact_by_type i t artifacts =
    elim (sort_by newer
      (select (λ a. a.run_id == i && str_eq a.artifact_type (value t)) artifacts)) [
        | [] ↦ none
        | a ∷ rest ↦ some a
      ]
