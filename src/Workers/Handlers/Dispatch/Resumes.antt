-- ===== src/Workers/Handlers/Dispatch/Resumes.antt =====
-- The services of the handlers with the resumes of src/myloware/workflows/langgraph/resume.py and
-- src/myloware/workflows/langgraph/hitl.py behind them.
use mylo_ware.Common.{ℕ, String, Bool, true, false, Option, none, some, ◌⊎◌, inl, inr, Bool-cases}
use mylo_ware.Common.Json.{Json, Fields}
use mylo_ware.Workers.Session.{Tables}
use mylo_ware.Workers.Handlers.Services.{Services}
use mylo_ware.Workers.Handlers.Clips.{OneClip}
use mylo_ware.Workers.Handlers.Dispatch.OneClip.{EngineKeeps}
use mylo_ware.Workflow.Clips.{is_empty}
use mylo_ware.Workflow.Resume
use mylo_ware.Workflow.Resume.Laws.{resume_hitl_gate_lem}
use mylo_ware.Workflow.Resume.{
  gate_answer, Engine, Snapshot, Options, Plan, nothing, go_on, try_again, fails, fail_run,
  after_failure, after_invoke, carry_out, plan_videos, plan_render, admit_gate, resume_hitl_gate,
}

-- The defaults of the two options, with which the handlers call.
abbrev pub defaults : Options
defaults = record { raise_on_error = false; fail_run_on_error = true }

-- `look` is what the engine shows when a gate is answered.
unfoldable pub with_engine : Engine → (ℕ → String ⊎ Snapshot) → Services → Services
with_engine e look sv = record sv {
  resume_after_videos = Resume.resume_after_videos e defaults;
  resume_after_render = Resume.resume_after_render e defaults;
  resume_hitl_gate = λ i gate approved comment t.
      Resume.resume_hitl_gate e i gate approved comment Fields.end (look i) t;
}

module _ (e : Engine)
    (keeps : (i : ℕ) (id : String) (answer : Json) (t : Tables)
      → OneClip t
      → OneClip (e.invoke i id answer t).1) where
  invoked-OneClip :
      (i : ℕ) (r : Option String × Tables) → OneClip r.1 → OneClip (after_invoke e defaults i r).1
  unfolding fail_run
  invoked-OneClip i (none, t) h = h
  invoked-OneClip i (some error, t) h = h

  carry_out-OneClip :
      (i : ℕ) (p : Plan) (t : Tables) → OneClip t → OneClip (carry_out e defaults i p t).1
  unfolding carry_out fail_run
  carry_out-OneClip i nothing t h = h
  carry_out-OneClip i (go_on id answer) t h =
      invoked-OneClip i (e.invoke i id answer t) (keeps i id answer t h)
  carry_out-OneClip i (try_again message) t h = h
  carry_out-OneClip i (fails error) t h = h

  gate-OneClip :
      (i : ℕ) (gate : String) (approved : Bool) (comment : Option String) (look : String ⊎ Snapshot)
      (t : Tables)
      → OneClip t
      → OneClip (resume_hitl_gate e i gate approved comment Fields.end look t).1
  gate-OneClip i gate approved comment look t h =
      elim (resume_hitl_gate_lem e i gate approved comment Fields.end look t) [
        | inl (message, q) ↦ rw q h
        | inr (id, waits, q) ↦ rw q (keeps i id (gate_answer e approved comment Fields.end) t h)
      ]

  render-OneClip :
      (i : ℕ) (url : String) (t : Tables)
      → OneClip t
      → OneClip (Resume.resume_after_render e defaults i url t).1
  unfolding Resume.resume_after_render
  render-OneClip i url t h = elim (Bool-cases (is_empty url)) [
    | inl y ↦ rw (y, Resume.resume_after_render) h
    | inr n ↦ rw (n, Resume.resume_after_render) (carry_out-OneClip i (plan_render e i url) t h)
  ]

  -- The resumes keep the clips if the graph does.
  pub with_engine-EngineKeeps :
      (look : ℕ → String ⊎ Snapshot) (sv : Services)
      → EngineKeeps sv
      → EngineKeeps (with_engine e look sv)
  unfolding with_engine Resume.resume_after_videos
  with_engine-EngineKeeps look sv k = record {
    run_workflow = k.run_workflow;
    resume_after_videos = λ i t h. carry_out-OneClip i (plan_videos e i t) t h;
    resume_after_render = render-OneClip;
    resume_hitl_gate =
        λ i gate approved comment t h. gate-OneClip i gate approved comment (look i) t h;
    invoke = k.invoke;
  }
