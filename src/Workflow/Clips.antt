-- ===== src/Workflow/Clips.antt =====
-- src/myloware/workflows/langgraph/utils.py: the clips of a run, in order, and their public urls.
-- `json.loads`, `int` of a text and `urlparse` are parameters.
pub mod Laws
use mylo_ware.Common.{
  ℕ, ◌^◌, String, ◌<>◌, Bool, true, false, ◌&&◌, ◌||◌, Option, none, some, List, [], ◌∷◌, ltb, leb,
  ◌==◌, str_eq, any, if◌then◌else◌, select, sort_by, length, map,
}
use Prim.Native.Char.{code}
use mylo_ware.Common.Text.{codes, starts_with, strip, rstrip_slash, rstrip_by, lstrip_by}
use mylo_ware.Common.Json
use mylo_ware.Common.Json.{Json, Fields, truthy}
use mylo_ware.Storage.Artifacts
use mylo_ware.Storage.Artifacts.{Artifact, ArtifactType, video_clip, clip_manifest}

-- What `urlparse` finds; the port is not read here.
pub record Url : Type 0 where
  pub scheme : String
  pub netloc : String
  pub path : String

-- `S3ObjectRef` of src/myloware/storage/object_store.py
pub record S3ObjectRef : Type 0 where
  pub bucket : String
  pub key : String

pub record Media : Type 0 where
  pub webhook_base_url : String
  pub transcode_s3_bucket : String
  pub transcode_s3_prefix : String
  pub parse : String → Option Url
  pub loads : String → Option Json
  pub int : String → Option ℕ

abbrev is_slash : ℕ → Bool
is_slash c = c == 47

abbrev pub is_empty : String → Bool
is_empty s = str_eq s ""

unfoldable pub has_slash : String → Bool
has_slash String.[] = false
has_slash (String.◌∷◌ c s) = is_slash (code c) || has_slash s

-- `s.split("/")[-1]`
unfoldable pub last_segment : String → String
unfolding has_slash
last_segment String.[] = String.[]
last_segment (String.◌∷◌ c s) =
    let rest = last_segment s in
    if has_slash s then rest else if is_slash (code c) then s else String.◌∷◌ c s

unfoldable pub lstrip_slash : String → String
unfolding lstrip_by
lstrip_slash s = lstrip_by is_slash s

abbrev begins_with : String → String → Bool
begins_with s prefix = starts_with (codes s) (codes prefix)

-- `parse_s3_uri`; `none` is an exception.
abbrev s3_ref : Url → Option S3ObjectRef
s3_ref u =
    let key = lstrip_slash u.path in
    if str_eq u.scheme "s3"
    then (if is_empty u.netloc || is_empty key
        then none
        else some (record { bucket = u.netloc; key = key }))
    else none

unfoldable pub parse_s3_uri : (String → Option Url) → String → Option S3ObjectRef
unfolding lstrip_slash
parse_s3_uri parse uri = elim (parse uri) [ none ↦ none | some u ↦ s3_ref u ]

abbrev pub media_path : String
media_path = "/v1/media/transcoded/"

module _ (m : Media) where
  abbrev base : String
  base = rstrip_slash m.webhook_base_url

  -- The key lies in the bucket and under the prefix of the transcoded clips.
  unfoldable pub is_transcoded : S3ObjectRef → Bool
  unfolding strip lstrip_slash rstrip_by starts_with
  is_transcoded ref =
      let bucket = strip m.transcode_s3_bucket in
      let key = lstrip_slash ref.key in
      let prefix = lstrip_slash (rstrip_slash (lstrip_slash (strip m.transcode_s3_prefix))) in
      (if is_empty bucket then false else str_eq ref.bucket bucket)
      && (is_empty prefix || str_eq key prefix || begins_with key (prefix <> "/"))

  abbrev path_of : Option Url → Option String
  path_of none = none
  path_of (some u) = if begins_with u.path media_path then some u.path else none

  abbrev rebased : String → Option String → String
  rebased url none = url
  rebased url (some path) = base <> path

  unfoldable pub rebase_path : String → String
  unfolding starts_with rstrip_slash
  rebase_path url =
      if begins_with url media_path then base <> url else rebased url (path_of (m.parse url))

  unfoldable pub rebase_s3 : String → S3ObjectRef → String
  unfolding is_transcoded last_segment lstrip_slash rebase_path rstrip_slash
  rebase_s3 url ref =
      let filename = last_segment (lstrip_slash ref.key) in
      if is_transcoded ref
      then (if is_empty filename then rebase_path url else base <> media_path <> filename)
      else rebase_path url

  -- `normalize_transcoded_url`, of a url that is there
  unfoldable pub normalize_transcoded_url : String → String
  unfolding rebase_s3 rebase_path parse_s3_uri starts_with rstrip_slash
  normalize_transcoded_url url =
      if is_empty url || is_empty base
      then url
      else if begins_with url "s3://"
      then elim (parse_s3_uri m.parse url) [ none ↦ url | some ref ↦ rebase_s3 url ref ]
      else rebase_path url

  -- `int(raw)`, or the fallback
  abbrev int_or : ℕ → Json → ℕ
  int_or fallback (Json.num n) = n
  int_or fallback (Json.bool b) = if b then 1 else 0
  int_or fallback (Json.str s) = elim (m.int s) [ none ↦ fallback | some n ↦ n ]
  int_or fallback _ = fallback

  first_key : List String → Fields → Option Json
  unfolding Json.get
  first_key [] meta = none
  first_key (k ∷ ks) meta = elim (Json.get k meta) [ none ↦ first_key ks meta | some v ↦ some v ]

  -- `_video_index_from_metadata`
  unfoldable pub video_index_from_metadata : Option Fields → ℕ → ℕ
  unfolding first_key
  video_index_from_metadata none fallback = fallback
  video_index_from_metadata (some meta) fallback =
      elim (first_key ("video_index" ∷ "videoIndex" ∷ "idx" ∷ "index" ∷ []) meta) [
        | none ↦ fallback
        | some v ↦ int_or fallback v
      ]

  abbrev pub some_text : Option String → Bool
  some_text none = false
  some_text (some s) = if is_empty s then false else true

  abbrev pub is_clip : Artifact → Bool
  is_clip a = str_eq a.artifact_type (Artifacts.value video_clip) && some_text a.uri

  -- `sort_key`: the index, then the time.
  unfoldable pub index_of : Artifact → ℕ
  unfolding video_index_from_metadata
  index_of a = video_index_from_metadata a.metadata (10 ^ 9)

  unfoldable pub comes_before : Artifact → Artifact → Bool
  unfolding index_of
  comes_before a b =
      ltb (index_of a) (index_of b) || (index_of a == index_of b && ltb a.created_at b.created_at)

  unfoldable pub sorted_video_clip_artifacts : List Artifact → List Artifact
  unfolding select sort_by comes_before
  sorted_video_clip_artifacts artifacts = sort_by comes_before (select is_clip artifacts)

  abbrev pub uri_of : Artifact → String
  uri_of a = elim a.uri [ none ↦ "" | some s ↦ s ]

  unfoldable pub sorted_video_clip_urls : List Artifact → List String
  unfolding sorted_video_clip_artifacts
  sorted_video_clip_urls artifacts = map uri_of (sorted_video_clip_artifacts artifacts)

  -- `normalize_transcoded_url(u) or u`
  unfoldable pub public_url : String → String
  unfolding normalize_transcoded_url
  public_url u = let n = normalize_transcoded_url u in if is_empty n then u else n

  unfoldable pub all_urls : List Artifact → List String
  unfolding sorted_video_clip_urls public_url
  all_urls artifacts = map public_url (sorted_video_clip_urls artifacts)

  -- `max(manifests, key=manifest_key)`: of those of the same time, the first.
  abbrev is_manifest : Artifact → Bool
  is_manifest a = str_eq a.artifact_type (Artifacts.value clip_manifest)

  abbrev later : Artifact → Artifact → Artifact
  later a b = if ltb a.created_at b.created_at then b else a

  latest : Artifact → List Artifact → Artifact
  latest a [] = a
  latest a (b ∷ rest) = latest (later a b) rest

  unfoldable pub latest_manifest : List Artifact → Option Artifact
  unfolding select latest
  latest_manifest artifacts = elim (select is_manifest artifacts) [
    | [] ↦ none
    | a ∷ rest ↦ some (latest a rest)
  ]

  keys : Fields → List String
  keys Fields.end = []
  keys (Fields.field k v fs) = k ∷ keys fs

  abbrev keys_of : Option Json → List String
  keys_of (some (Json.obj fs)) = keys fs
  keys_of _ = []

  -- `task_ids`: none where the content cannot be read, or is no object, or an empty one.
  unfoldable pub task_ids : Artifact → List String
  unfolding keys
  task_ids manifest =
      keys_of
        (m.loads (elim manifest.content [ none ↦ "{}" | some s ↦ if is_empty s then "{}" else s ]))

  abbrev meta_of : Artifact → Fields
  meta_of a = elim a.metadata [ none ↦ Fields.end | some fs ↦ fs ]

  abbrev pub is_among : List String → String → Bool
  is_among [] t = false
  is_among (s ∷ rest) t = str_eq s t || is_among rest t

  -- A clip of one of the tasks.
  unfoldable pub is_clip_of : List String → Artifact → Bool
  unfolding Json.get
  is_clip_of tasks a =
      is_clip a
      && elim (Json.get "task_id" (meta_of a)) [ some (Json.str t) ↦ is_among tasks t | _ ↦ false ]

  -- `expected_count`, where it is a number that is not 0. The truth values are integers in Python.
  unfoldable pub expected_count : Artifact → ℕ
  unfolding Json.get
  expected_count manifest = elim (Json.get "task_count" (meta_of manifest)) [
    | some (Json.num n) ↦ n
    | some (Json.bool b) ↦ if b then 1 else 0
    | _ ↦ 0
  ]

  abbrev urls_of_clips : ℕ → List Artifact → List String
  urls_of_clips expected clips =
      if ltb (length clips) expected then [] else map public_url (sorted_video_clip_urls clips)

  abbrev pub urls_of_tasks : List String → Artifact → List Artifact → List String
  urls_of_tasks [] manifest artifacts = all_urls artifacts
  urls_of_tasks (t ∷ ts) manifest artifacts =
      urls_of_clips (expected_count manifest) (select (is_clip_of (t ∷ ts)) artifacts)

  unfoldable pub select_latest_video_clip_urls : List Artifact → List String
  unfolding latest_manifest all_urls task_ids expected_count is_clip_of select
      sorted_video_clip_urls public_url
  select_latest_video_clip_urls artifacts = elim (latest_manifest artifacts) [
    | none ↦ all_urls artifacts
    | some manifest ↦ urls_of_tasks (task_ids manifest) manifest artifacts
  ]
