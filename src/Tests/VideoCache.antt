-- ===== src/Tests/VideoCache.antt =====
-- Cached clips of src/myloware/storage/repositories.py.
use mylo_ware.Common.{ℕ, String, ◌≡◌, refl, none, some, List, [], ◌∷◌, arith, length, take}
use mylo_ware.Common.Rows.{first_where}
use mylo_ware.Common.Json
use mylo_ware.Common.Json.{Json, Fields}
use mylo_ware.Storage.Artifacts.{Artifact}
use mylo_ware.Storage.Artifacts.Cache.{all_clips, find_cached_videos, filled, topic_matches}
use mylo_ware.Storage.Artifacts.CacheLaws.{is_for, present, find_cached_videos_by_sign}
use mylo_ware.Storage.Artifacts.Repeats.{Cycles, filled-Cycles}

abbrev clip : ℕ → String → String → ℕ → Artifact
clip i sign uri now = record {
  id = i;
  run_id = 7;
  persona = "sora";
  artifact_type = "video_clip";
  content = none;
  uri = some uri;
  metadata =
      some
        (Fields.field "topic" (Json.str "Zodiac") (Fields.field "sign" (Json.str sign) Fields.end));
  created_at = now;
}

abbrev three_clips : List Artifact
three_clips = clip 1 "aries" "u1" 10 ∷ clip 2 "leo" "u2" 20 ∷ clip 3 "aries" "u3" 30 ∷ []

find_cached_videos_by_sign_example :
    find_cached_videos "zodiac" (some ("leo" ∷ "aries" ∷ [])) 2 three_clips
    ≡ some (
        take 2 (
          present
            (λ s. first_where (is_for "zodiac" s) (all_clips three_clips))
            ("leo" ∷ "aries" ∷ [])))
find_cached_videos_by_sign_example =
    find_cached_videos_by_sign "zodiac" ("leo" ∷ "aries" ∷ []) 2 three_clips
      (unfold all_clips topic_matches Json.get in (refl, (refl, (refl, tt)))) (omega arith)

-- The most recent clip of each sign, in the order of the signs.
found_clips :
    find_cached_videos "zodiac" (some ("leo" ∷ "aries" ∷ [])) 2 three_clips
    ≡ some (clip 2 "leo" "u2" 20 ∷ clip 3 "aries" "u3" 30 ∷ [])
unfolding find_cached_videos all_clips Json.get
found_clips = refl

filled-Cycles_example :
    Cycles ("u1" ∷ "u2" ∷ []) (filled 5 ("u1" ∷ "u2" ∷ []))
    × (length (filled 5 ("u1" ∷ "u2" ∷ [])) ≡ 5)
filled-Cycles_example = filled-Cycles 5 "u1" ("u2" ∷ [])
