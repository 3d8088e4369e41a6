-- ===== src/Workflow/Hitl.antt =====
-- The gates of src/myloware/workflows/hitl.py: a human approves or rejects the ideas, or the
-- publication. Log lines and the Telegram notice change no state and are left out.
pub mod Changes
pub mod Laws
pub mod Approval
use Prim.Native.String.{◌++◌ as text_append}
use mylo_ware.Common.{
  ℕ, String, Bool, true, false, ◌&&◌, Option, none, some, List, [], ◌∷◌, ◌++◌, ◌⊎◌, inl, inr, ◌==◌,
  str_eq, if◌then◌else◌, is_some,
}
use mylo_ware.Common.Json
use mylo_ware.Common.Json.{Json, Fields}
use mylo_ware.Storage.Runs
use mylo_ware.Storage.Runs.{Run, status_is, step_is, error_is, artifacts_dict}
use mylo_ware.Storage.Runs.Status.{
  RunStatus, rejected, awaiting_ideation_approval, awaiting_publish_approval, value,
}
use mylo_ware.Storage.Artifacts
use mylo_ware.Storage.Artifacts.{Artifact, rejection}

-- One row of the audit trail, without its id and its time; it is written in a session of its own.
pub record AuditLog : Type 0 where
  pub action : String
  pub user_id : Option String
  pub run_id : ℕ
  pub outcome : String
  pub metadata : Fields

-- What the gates work on.
pub record Desk : Type 0 where
  pub runs : List Run
  pub artifacts : List Artifact
  pub audit : List AuditLog

-- `WorkflowResult` of src/myloware/workflows/state.py
pub record WorkflowResult : Type 0 where
  pub run_id : ℕ
  pub status : RunStatus
  pub artifacts : Option Fields
  pub current_step : Option String
  pub error : Option String

-- `ValueError` in its three cases, and the `AttributeError` of a run without artifacts.
pub data GateError : Type 0 where
  not_found unknown_gate wrong_status no_artifacts : GateError

pub data Reply : Type 0 where
  result : WorkflowResult → Reply
  error : GateError → Reply

-- `GATE_STATUS_MAP`
unfoldable pub gate_status : String → Option RunStatus
gate_status gate =
    if str_eq gate "ideation"
    then some awaiting_ideation_approval
    else if str_eq gate "publish"
    then some awaiting_publish_approval
    else none

-- An override that is None or empty overrides nothing.
abbrev pub override_text : Option String → Option String
override_text none = none
override_text (some s) = if str_eq s "" then none else some s

abbrev pub same_status : RunStatus → RunStatus → Bool
same_status s t = str_eq (value s) (value t)

-- The two guards that both operations begin with. `lenient` is the setting
-- `disable_background_workflows`.
unfoldable pub check_gate : Bool → ℕ → String → List Run → GateError ⊎ (Run × RunStatus)
unfolding gate_status Runs.get
check_gate lenient i gate runs = elim (Runs.get i runs) [
  | none ↦ inl not_found
  | some r ↦ elim (gate_status gate) [
    | none ↦ inl unknown_gate
    | some expected ↦
        if same_status r.status expected
        then inr (r, expected)
        else if lenient
        then inr (r, expected)
        else inl wrong_status
  ]
]

abbrev pub json_or_null : Option Json → Json
json_or_null none = Json.null
json_or_null (some v) = v

unfoldable pub add_text : ℕ → String → Json → ℕ → List Run → List Run
unfolding Runs.add_artifact
add_text i key v now runs = (Runs.add_artifact i key v now runs).1

-- The artifacts that an approval with an override leaves; `none` is the `AttributeError` of
-- `run.artifacts.get`.
unfoldable pub override_run : ℕ → String → Option String → ℕ → Run → List Run → Option (List Run)
unfolding add_text
override_run i gate none now r runs = some runs
override_run i gate (some text) now r runs =
    if str_eq gate "ideation"
    then elim r.artifacts [
      | none ↦ none
      | some fs ↦ some (
          add_text i "ideas" (Json.str text) now
            (add_text i "ideas_original" (json_or_null (Json.get "ideas" fs)) now runs))
    ]
    else some (add_text i "publish_override" (Json.str text) now runs)

abbrev pub artifacts_of : Option Run → Option Fields
artifacts_of none = none
artifacts_of (some r) = r.artifacts

abbrev step_of : String → String
step_of gate = if str_eq gate "ideation" then "ideation" else "publish_approval"

-- `approve_gate`
unfoldable pub approve_gate : Bool → ℕ → String → Option String → ℕ → Desk → Reply × Desk
unfolding check_gate override_run Runs.get
approve_gate lenient i gate override now d = elim (check_gate lenient i gate d.runs) [
  | inl e ↦ (error e, d)
  | inr (r, expected) ↦
      let audited = record d {
        audit =
            d.audit
            ++ record {
              action = "gate_approved";
              user_id = r.user_id;
              run_id = i;
              outcome = "success";
              metadata = Fields.field "gate" (Json.str gate) (
                  Fields.field "has_override" (Json.bool (is_some (override_text override)))
                    Fields.end);
            }
              ∷ [];
      } in
      elim (override_run i gate (override_text override) now r d.runs) [
        | none ↦ (error no_artifacts, audited)
        | some runs ↦ (
          result (record {
            run_id = i;
            status = expected;
            artifacts = artifacts_of (Runs.get i runs);
            current_step = some (step_of gate);
            error = none;
          }),
          record audited { runs = runs },
        )
      ]
]

-- f"Rejected at {gate} gate: {reason}"
unfoldable pub rejection_message : String → String → String
rejection_message gate reason =
    text_append "Rejected at " (text_append gate (text_append " gate: " reason))

-- The updates of the run, in their order.
unfoldable pub rejected_runs : ℕ → String → String → ℕ → List Run → List Run
unfolding Runs.update add_text rejection_message
rejected_runs i gate reason now runs =
    let closed = (Runs.update i (status_is rejected ∷ []) now runs).1 in
    let stepped = (Runs.update i (step_is (some gate) ∷ []) now closed).1 in
    let reasoned = add_text i "rejection_reason" (Json.str reason) now stepped in
    let gated = add_text i "rejected_gate" (Json.str gate) now reasoned in
    (Runs.update i (error_is (some (rejection_message gate reason)) ∷ []) now gated).1

-- `reject_gate`; `artifact_id` is the id of the new artifact.
unfoldable pub reject_gate : Bool → ℕ → ℕ → String → String → ℕ → Desk → Reply × Desk
unfolding check_gate rejected_runs Runs.get Artifacts.create
reject_gate lenient artifact_id i gate reason now d = elim (check_gate lenient i gate d.runs) [
  | inl e ↦ (error e, d)
  | inr (r, expected) ↦
      let runs = rejected_runs i gate reason now d.runs in
      (
        result (record {
          run_id = i;
          status = rejected;
          artifacts = artifacts_of (Runs.get i runs);
          current_step = some gate;
          error = some reason;
        }),
        record {
          runs = runs;
          artifacts =
              (Artifacts.create
                (record {
                  id = artifact_id;
                  run_id = i;
                  persona = "hitl";
                  artifact_type = rejection;
                  content = some reason;
                  uri = none;
                  metadata = some (Fields.field "gate" (Json.str gate) Fields.end);
                  trace_id = none;
                })
                now d.artifacts).1;
          audit =
              d.audit
              ++ record {
                action = "gate_rejected";
                user_id = r.user_id;
                run_id = i;
                outcome = "failure";
                metadata =
                    Fields.field "gate" (Json.str gate)
                      (Fields.field "reason" (Json.str reason) Fields.end);
              }
                ∷ [];
        },
      )
]
