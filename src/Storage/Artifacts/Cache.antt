-- ===== src/Storage/Artifacts/Cache.antt =====
-- `find_cached_videos` of src/myloware/storage/repositories.py and `check_video_cache` of
-- src/myloware/workflows/helpers.py.
use mathlib.Core.Option
use mylo_ware.Common.{
  ℕ, zero, suc, ◌%◌, String, Bool, true, false, not, ◌&&◌, Option, none, some, List, [], ◌∷◌, ◌++◌,
  leb, ltb, str_eq, if◌then◌else◌, select, sort_by, is_some, length, get_elem?,
}
use mylo_ware.Common.Text.{codes, codes_eq, lower, lower_code}
use mylo_ware.Common.Json
use mylo_ware.Common.Json.{Json, Fields}
use mylo_ware.Storage.Artifacts.{Artifact, video_clip, value, newer}

abbrev meta_of : Artifact → Fields
meta_of a = elim a.metadata [ none ↦ Fields.end | some fs ↦ fs ]

-- `meta.get("topic", "").lower() == topic.lower()`, for topics in ASCII; `none` is the
-- `AttributeError` of a topic that is no text.
unfoldable pub topic_matches : String → Artifact → Option Bool
unfolding lower lower_code
topic_matches topic a = elim (Json.get "topic" (meta_of a)) [
  | none ↦ some (codes_eq (lower (codes "")) (lower (codes topic)))
  | some (Json.str s) ↦ some (codes_eq (lower (codes s)) (lower (codes topic)))
  | some _ ↦ none
]

-- `meta.get("sign", "")`, where it is a text that is not empty. Other values are in no list of signs.
unfoldable pub sign_of : Artifact → Option String
sign_of a = elim (Json.get "sign" (meta_of a)) [
  | none ↦ none
  | some (Json.str s) ↦ if str_eq s "" then none else some s
  | some _ ↦ none
]

abbrev pub contains : List String → String → Bool
contains [] s = false
contains (t ∷ ts) s = if str_eq t s then true else contains ts s

abbrev pub Clips : Type 0
Clips = List (String × Artifact)

abbrev pub lookup : String → Clips → Option Artifact
lookup s [] = none
lookup s ((t, a) ∷ clips) = if str_eq t s then some a else lookup s clips

-- `all_clips`: the clips that have a uri, the most recent first.
unfoldable pub all_clips : List Artifact → List Artifact
unfolding select sort_by
all_clips artifacts =
    sort_by newer
      (select (λ a. str_eq a.artifact_type (value video_clip) && is_some a.uri) artifacts)

-- The loop without a sign filter: it stops when it has `limit` clips.
unfoldable pub collect : String → ℕ → List Artifact → List Artifact → Option (List Artifact)
unfolding topic_matches
collect topic limit found [] = some found
collect topic limit found (a ∷ rest) = elim (topic_matches topic a) [
  | none ↦ none
  | some false ↦ collect topic limit found rest
  | some true ↦
      if leb limit (length (found ++ a ∷ []))
      then some (found ++ a ∷ [])
      else (let more = collect topic limit (found ++ a ∷ []) rest in more)
]

-- The body of the loop with a sign filter: the first clip of each wanted sign is kept.
unfoldable pub keep_sign : List String → Artifact → Clips → Option String → Clips
keep_sign signs a clips none = clips
keep_sign signs a clips (some s) =
    if contains signs s && not (is_some (lookup s clips)) then clips ++ (s, a) ∷ [] else clips

unfoldable pub sign_to_clip : String → List String → Clips → List Artifact → Option Clips
unfolding topic_matches keep_sign sign_of
sign_to_clip topic signs clips [] = some clips
sign_to_clip topic signs clips (a ∷ rest) = elim (topic_matches topic a) [
  | none ↦ none
  | some false ↦ sign_to_clip topic signs clips rest
  | some true ↦ sign_to_clip topic signs (keep_sign signs a clips (sign_of a)) rest
]

abbrev pub added : Option Artifact → List Artifact → List Artifact
added none results = results
added (some a) results = results ++ a ∷ []

-- The clips in the order of the signs.
unfoldable pub in_order : Clips → ℕ → List Artifact → List String → List Artifact
in_order clips limit results [] = results
in_order clips limit results (s ∷ signs) =
    let results' = added (lookup s clips) results in
    let more = in_order clips limit results' signs in
    if leb limit (length results') then results' else more

-- `find_cached_videos`; `none` is the `AttributeError`.
unfoldable pub find_cached_videos :
    String → Option (List String) → ℕ → List Artifact → Option (List Artifact)
unfolding all_clips collect sign_to_clip in_order
find_cached_videos topic none limit artifacts = collect topic limit [] (all_clips artifacts)
find_cached_videos topic (some signs) limit artifacts =
    Option.map (λ clips. in_order clips limit [] signs)
      (sign_to_clip topic signs [] (all_clips artifacts))

-- The urls of the clips, and the signs that they stand for. A clip without metadata, on which Python
-- would raise, has no sign here; `find_cached_videos` finds one for the empty topic only.
unfoldable pub urls_of : List Artifact → List String
urls_of [] = []
urls_of (a ∷ rest) = elim a.uri [
  | none ↦ urls_of rest
  | some u ↦ if str_eq u "" then urls_of rest else u ∷ urls_of rest
]

unfoldable pub signs_of : List Artifact → List String
unfolding sign_of
signs_of [] = []
signs_of (a ∷ rest) = elim a.uri [
  | none ↦ signs_of rest
  | some u ↦
      if str_eq u ""
      then signs_of rest
      else elim (sign_of a) [ none ↦ signs_of rest | some s ↦ s ∷ signs_of rest ]
]

abbrev pub appended : Option String → List String → List String
appended none urls = urls
appended (some u) urls = urls ++ u ∷ []

-- `while len(cached_urls) < required_count`, with `rounds` rounds left: a round adds one url.
unfoldable pub repeat_urls : ℕ → ℕ → ℕ → List String → List String
repeat_urls zero original required urls = urls
repeat_urls (suc rounds) original required urls =
    let more =
      repeat_urls rounds original required
        (appended (get_elem? urls (length urls % original)) urls) in
    if ltb (length urls) required then more else urls

-- Cached urls are repeated until there are enough; no url is invented.
unfoldable pub filled : ℕ → List String → List String
unfolding repeat_urls
filled required [] = []
filled required (u ∷ us) = repeat_urls required (length (u ∷ us)) required (u ∷ us)

-- `check_video_cache` on what `find_cached_videos` returned: the urls, and the signs that need new
-- videos. The first argument is the setting `use_video_cache`.
unfoldable pub check_video_cache :
    Bool → List Artifact → Option (List String) → ℕ → List String × List String
unfolding urls_of signs_of filled select
check_video_cache false cached none required = ([], [])
check_video_cache false cached (some wanted) required = ([], wanted)
check_video_cache true cached signs required =
    let urls = urls_of cached in
    let missing : List String = elim signs [
      | none ↦ []
      | some wanted ↦ select (λ s. not (contains (signs_of cached) s)) wanted
    ] in
    (filled required urls, missing)
