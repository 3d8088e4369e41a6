-- ===== src/Tests/Gates.antt =====
-- A run of src/myloware/workflows that walks through the graph, and its gates.
use mylo_ware.Common.{
  ◌≢◌, List, All, ◌≤◌, ◌≡◌, ◌↔◌, refl, ◌⊎◌, true, false, none, some, [], ◌∷◌, length, Any,
}
use mylo_ware.Workflow.Graph.{
  Node, ideation, ideation_approval, production, editing, publish_approval, publishing, State,
  is_over, next, key_error,
}
use mylo_ware.Workflow.Graph.Walks.{
  Visit, Walk, start, step, ApprovedIdeas, ApprovedPublish, publishing_approved, walk_bounded,
  next-key_error_iff,
}
use mylo_ware.Common.Json.{Json, Fields}
use mylo_ware.Workflow.Hitl.{result}
use mylo_ware.Workflow.Hitl.Approval.{overridden, approve_gate_lem}
use mylo_ware.Storage.Runs
use mylo_ware.Storage.Runs.{Run}
use mylo_ware.Storage.Runs.Status.{awaiting_ideation_approval, awaiting_publish_approval}
use mylo_ware.Workflow.Hitl.{Desk, error, wrong_status, gate_status, approve_gate, reject_gate}
use mylo_ware.Workflow.Hitl.Changes.{rejected_run}
use mylo_ware.Workflow.Hitl.Laws.{
  GateCall, approving, rejecting, AtGate, call_gate, call_gates, reject_gate_lem, rejection_final,
}
use mylo_ware.Tests.RunTable.{waiting_run, two_runs, other_run}

abbrev approved : State
approved = record {
  ideas_approved = some true;
  video_clips = some ("clip" ∷ []);
  production_complete = some true;
  final_video_url = some "url";
  publish_approved = some true;
  status = some "running";
}

abbrev failed_state : State
failed_state = record approved { status = some "failed" }

abbrev visit : Node → Visit
visit n = record { node = n; state = approved }

abbrev full_walk : Walk (
    visit publishing
    ∷ visit publish_approval
    ∷ visit editing
    ∷ visit production
    ∷ visit ideation_approval
    ∷ visit ideation
    ∷ [])
unfolding next
full_walk =
    step {n = publishing} approved
      (step {n = publish_approval} approved
        (step {n = editing} approved
          (step {n = production} approved
            (step {n = ideation_approval} approved (start approved) refl) refl)
          refl)
        refl)
      refl

publishing_approved_example :
    let vs =
      visit publish_approval
      ∷ visit editing
      ∷ visit production
      ∷ visit ideation_approval
      ∷ visit ideation
      ∷ [] in
    Any ApprovedIdeas vs × Any ApprovedPublish vs
publishing_approved_example = publishing_approved full_walk refl

abbrev earlier_visits : List Visit
earlier_visits =
    visit publish_approval
    ∷ visit editing
    ∷ visit production
    ∷ visit ideation_approval
    ∷ visit ideation
    ∷ []

walk_bounded_example :
    (length (visit publishing ∷ earlier_visits) ≤ 8) × All (λ u. u.node ≢ publishing) earlier_visits
walk_bounded_example = walk_bounded full_walk

next-key_error_iff_example :
    (next production failed_state ≡ key_error)
    ↔ (((production ≡ production) ⊎ (production ≡ editing)) × (is_over (some "failed") ≡ true))
next-key_error_iff_example = next-key_error_iff production failed_state

abbrev desk : Desk
desk = record { runs = two_runs; artifacts = []; audit = [] }

reject_gate_lem_example :
    Runs.get 7 (reject_gate false 1 7 "publish" "dull" 30 desk).1.runs
    ≡ some (rejected_run "publish" "dull" 30 waiting_run)
reject_gate_lem_example =
    reject_gate_lem false 1 7 7 "publish" "dull" 30 desk {r = waiting_run} {q = waiting_run}
      {expected = awaiting_publish_approval} (unfold Runs.get in refl) (unfold gate_status in refl)
      refl (unfold Runs.get in refl)

abbrev later_calls : List GateCall
later_calls = approving "publish" none 40 ∷ rejecting 2 "ideation" "again" 50 ∷ []

later_calls-AtGate : All AtGate later_calls
later_calls-AtGate = (
  (awaiting_publish_approval, unfold gate_status in refl),
  ((awaiting_ideation_approval, unfold gate_status in refl), tt),
)

rejection_final_example :
    let after = (reject_gate false 1 7 "publish" "dull" 30 desk).1 in
    (All (λ c. call_gate 7 c after ≡ (error wrong_status, after)) later_calls)
    × (call_gates 7 later_calls after ≡ after)
rejection_final_example =
    rejection_final 1 7 "publish" "dull" 30 desk later_calls {r = waiting_run}
      {expected = awaiting_publish_approval} (unfold Runs.get in refl) (unfold gate_status in refl)
      refl later_calls-AtGate

-- It waits at the other gate.
abbrev idea_run : Run
idea_run = record waiting_run { status = awaiting_ideation_approval }

abbrev idea_desk : Desk
idea_desk = record { runs = idea_run ∷ other_run ∷ []; artifacts = []; audit = [] }

approve_gate_lem_example :
    let (reply, after) = approve_gate false 7 "ideation" (some "dogs") 30 idea_desk in
    (reply
      ≡ result (record {
        run_id = 7;
        status = awaiting_ideation_approval;
        artifacts = (overridden "dogs" 30 idea_run).artifacts;
        current_step = some "ideation";
        error = none;
      }))
    × (Runs.get 8 after.runs ≡ some other_run)
approve_gate_lem_example =
    approve_gate_lem false 7 8 (some "dogs") "dogs" 30 idea_desk {r = idea_run} {q = other_run}
      {fs = Fields.field "ideas" (Json.str "two cats") Fields.end} (unfold Runs.get in refl) refl
      refl refl (unfold Runs.get in refl)
