-- ===== src/Workers/Handlers/Resume.antt =====
-- The branches of `handle_job` in src/myloware/workers/handlers.py that start a run or resume it; the
-- work itself is done by the engine, in sessions of its own.
use mylo_ware.Common.{
  ℕ, String, Bool, true, false, ◌||◌, Option, none, some, List, [], ◌∷◌, str_eq, if◌then◌else◌,
}
use mylo_ware.Common.Json
use mylo_ware.Common.Json.{Json, Fields, get_true}
use mylo_ware.Storage.Runs.Status.{RunStatus}
use mylo_ware.Workers.Session.{Exec, pure, end_with, raised, attempt, ◌>>=◌, or_raise, call}
use mylo_ware.Workers.Handlers.Services.{Services, text_of, text_or, safe_json, is_status, get_run}

module _ (sv : Services) where
  -- `getattr(run, "vector_db_id", None) or payload.get("vector_db_id")`, as a text that is not empty
  abbrev vector_db : Option String → Option Json → Option String
  vector_db none none = none
  vector_db none (some v) = some (text_of sv v)
  vector_db (some s) other =
      if str_eq s "" then elim other [ none ↦ none | some v ↦ some (text_of sv v) ] else some s

  unfoldable pub run_execute : Option ℕ → Fields → Exec Unit
  unfolding ◌>>=◌ get_run get_true text_of call
  run_execute none payload = end_with (raised "run.execute requires run_id")
  run_execute (some i) payload = do
    run ← get_run sv i
    if is_status RunStatus.pending run
        then (do
          db ← attempt (
              or_raise "vector_db_id missing for run.execute"
                (vector_db run.vector_db_id (get_true "vector_db_id" payload)))
          call (sv.run_workflow i db))
        else pure tt

  unfoldable pub resume_videos : Option ℕ → Exec Unit
  unfolding call end_with
  resume_videos none = end_with (raised "resume_after_videos requires run_id")
  resume_videos (some i) = call (sv.resume_after_videos i)

  unfoldable pub resume_render : Option ℕ → Fields → Exec Unit
  unfolding call end_with text_or
  resume_render none payload = end_with (raised "resume_after_render requires run_id")
  resume_render (some i) payload =
      let video_url = text_or sv "video_url" "" payload in
      if str_eq video_url ""
      then end_with (raised "resume_after_render requires video_url")
      else call (sv.resume_after_render i video_url)

  -- `str(comment) if comment is not None else None`
  abbrev comment_of : Option Json → Option String
  comment_of none = none
  comment_of (some Json.null) = none
  comment_of (some v) = some (text_of sv v)

  -- The status in which a run waits at the gate.
  abbrev pub gate_status : String → RunStatus
  gate_status gate =
      if str_eq gate "ideation"
      then RunStatus.awaiting_ideation_approval
      else RunStatus.awaiting_publish_approval

  unfoldable pub resume_gate : ℕ → String → Bool → Option Json → Exec Unit
  unfolding ◌>>=◌ get_run text_of call
  resume_gate i gate approved comment = do
    run ← get_run sv i
    if is_status (gate_status gate) run
        then call (sv.resume_hitl_gate i gate approved (comment_of comment))
        else pure tt

  abbrev pub answer_gate : ℕ → String → Fields → Option Json → Exec Unit
  answer_gate i gate payload (some (Json.bool approved)) =
      resume_gate i gate approved (Json.get "comment" payload)
  answer_gate i gate payload _ = end_with (raised "langgraph.hitl_resume requires boolean approved")

  unfoldable pub hitl_resume : Option ℕ → Fields → Exec Unit
  unfolding Json.get text_or resume_gate end_with
  hitl_resume none payload = end_with (raised "langgraph.hitl_resume requires run_id")
  hitl_resume (some i) payload =
      let gate = text_or sv "gate" "" payload in
      if str_eq gate "ideation" || str_eq gate "publish"
      then answer_gate i gate payload (Json.get "approved" payload)
      else end_with (raised "langgraph.hitl_resume requires gate=ideation|publish")

  -- The interrupt that is answered: the one that the payload names, or the first one. The answer
  -- carries its id, if it has one; a JSON key is a text.
  abbrev first_id : List (Option Json) → Option Json
  first_id [] = none
  first_id (i ∷ rest) = i

  abbrev chosen_id : Option Json → List (Option Json) → Option Json
  chosen_id (some v) interrupts = some v
  chosen_id none interrupts = first_id interrupts

  unfoldable pub resume_argument : Option Json → Fields → List (Option Json) → Json
  unfolding text_of Json.truthy
  resume_argument named answer interrupts = elim (chosen_id named interrupts) [
    | none ↦ Json.obj answer
    | some v ↦
        if Json.truthy v
        then Json.obj (Fields.field (text_of sv v) (Json.obj answer) Fields.end)
        else Json.obj answer
  ]

  abbrev nothing_to_resume : List (Option Json) → Bool
  nothing_to_resume [] = true
  nothing_to_resume (i ∷ rest) = false

  unfoldable pub langgraph_resume : Option ℕ → Fields → Exec Unit
  unfolding ◌>>=◌ Json.get get_true safe_json resume_argument call
  langgraph_resume none payload = end_with (raised "langgraph.resume requires run_id")
  langgraph_resume (some i) payload =
      if sv.use_langgraph_engine
      then (do
        interrupts ← attempt (sv.interrupts i)
        if nothing_to_resume interrupts
            then pure tt
            else call (
                sv.invoke i (
                  resume_argument (get_true "interrupt_id" payload)
                    (safe_json sv (Json.get "resume_data" payload)) interrupts)))
      else end_with (raised "LangGraph engine is not enabled")
