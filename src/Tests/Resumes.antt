-- ===== src/Tests/Resumes.antt =====
-- Resumes of a run, and its clips, of src/myloware/workflows/langgraph.
use mylo_ware.Common.{
  Any, ◌≤◌, String, ◌≡◌, refl, true, none, some, ◌⊎◌, List, [], ◌∷◌, All, length, map, select,
}
use mylo_ware.Common.Json.{Json, Fields}
use mylo_ware.Storage.Artifacts.{Artifact, get_by_run}
use mylo_ware.Workers.Session.{Tables}
use mylo_ware.Workers.Handlers.Dispatch.Resumes.{defaults}
use mylo_ware.Workflow.Resume.{resume_after_videos, resume_hitl_gate, gate_answer}
use mylo_ware.Workflow.Resume.Laws.{
  Resumed, resume_after_videos_lem, GateWaits, resume_hitl_gate_lem,
}
use mylo_ware.Workflow.Clips.{
  Media, comes_before, is_clip_of, public_url, uri_of, expected_count, latest_manifest, task_ids,
  select_latest_video_clip_urls,
}
use mylo_ware.Workflow.Clips.Laws.{Sorted, select_latest-Tasks}
use mylo_ware.Tests.RunTable.{waiting_run}
use mylo_ware.Tests.JobServices.{engine, gate_look, clip, clip_tables}

resume_after_videos_lem_example :
    Resumed engine defaults 7
      (select_latest_video_clip_urls engine.media (get_by_run 7 clip_tables.artifacts))
      clip_tables
      (resume_after_videos engine defaults 7 clip_tables).1
resume_after_videos_lem_example = resume_after_videos_lem engine defaults 7 clip_tables

abbrev publish_tables : Tables
publish_tables = record clip_tables { runs = waiting_run ∷ [] }

resume_hitl_gate_lem_example :
    ((message : String) × (resume_hitl_gate engine 7 "publish" true none Fields.end gate_look
          publish_tables
        ≡ (some message, publish_tables)))
    ⊎ ((id : String) × GateWaits engine 7 "publish" id gate_look publish_tables
        × (resume_hitl_gate engine 7 "publish" true none Fields.end gate_look publish_tables
            ≡ engine.invoke 7 id (gate_answer engine true none Fields.end) publish_tables))
resume_hitl_gate_lem_example =
    resume_hitl_gate_lem engine 7 "publish" true none Fields.end gate_look publish_tables

-- A manifest of the task of the clip.
abbrev manifest : Artifact
manifest = record clip {
  artifact_type = "clip_manifest";
  content = some "manifest";
  uri = none;
  metadata = some (Fields.field "task_count" (Json.num 1) Fields.end);
}

abbrev media : Media
media = record engine.media {
  loads = λ s. some (Json.obj (Fields.field "t1" (Json.obj Fields.end) Fields.end));
}

select_latest-Tasks_example :
    (select_latest_video_clip_urls media (manifest ∷ clip ∷ []) ≡ [])
    ⊎ ((clips : List Artifact) × (select_latest_video_clip_urls media (manifest ∷ clip ∷ [])
          ≡ map (λ a. public_url media (uri_of media a)) clips)
        × Sorted (comes_before media) clips
        × All
            (λ a. Any (λ b. b ≡ a) (manifest ∷ clip ∷ []) × (is_clip_of media ("t1" ∷ []) a ≡ true))
            clips
        × (expected_count media manifest ≤ length clips))
select_latest-Tasks_example =
    select_latest-Tasks media (manifest ∷ clip ∷ []) "t1" [] {manifest = manifest}
      (unfold latest_manifest select in refl) (unfold task_ids in refl)
