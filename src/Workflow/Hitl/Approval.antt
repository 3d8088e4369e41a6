-- ===== src/Workflow/Hitl/Approval.antt =====
-- What an approval makes of its run.
use mathlib.Core.Path.{subst}
use mylo_ware.Common.{
  ℕ, String, ◌≡◌, refl, ap, Bool, true, false, Option, none, some, List, ◌==◌, if◌then◌else◌,
}
use mylo_ware.Common.Json
use mylo_ware.Common.Json.{Json, Fields}
use mylo_ware.Storage.Runs
use mylo_ware.Storage.Runs.{Run, stamp, with_artifact, artifacts_dict}
use mylo_ware.Storage.Runs.Status.{awaiting_ideation_approval}
use mylo_ware.Workflow.Hitl.{
  Desk, Reply, result, gate_status, override_text, same_status, json_or_null, add_text,
  override_run, approve_gate, artifacts_of,
}
use mylo_ware.Workflow.Hitl.Changes.{by_id, check_gate-pass, own_artifact, other_artifact}

-- The run after an approval with other ideas.
abbrev pub overridden : String → ℕ → Run → Run
overridden text now q = record q {
  artifacts = some (
      Json.put "ideas" (Json.str text) (
        Json.put "ideas_original" (json_or_null (Json.get "ideas" (artifacts_dict q)))
          (artifacts_dict q)));
  updated_at = some now;
}

ideas_runs : ℕ → String → ℕ → Fields → List Run → List Run
ideas_runs i text now fs runs =
    add_text i "ideas" (Json.str text) now
      (add_text i "ideas_original" (json_or_null (Json.get "ideas" fs)) now runs)

own_ideas :
    (i : ℕ) (text : String) (now : ℕ) (runs : List Run) {r : Run}
    → Runs.get i runs ≡ some r
    → Runs.get i (ideas_runs i text now (artifacts_dict r) runs) ≡ some (overridden text now r)
unfolding ideas_runs stamp with_artifact
own_ideas i text now runs {r} h = own_artifact i now "ideas" (Json.str text) _ (
    own_artifact i now "ideas_original" (json_or_null (Json.get "ideas" (artifacts_dict r))) runs
      {r = r} h)

other_ideas :
    (i k : ℕ) (text : String) (now : ℕ) (fs : Fields) (runs : List Run) {r q : Run}
    → (k == i) ≡ false
    → Runs.get i runs ≡ some r
    → Runs.get k runs ≡ some q
    → Runs.get k (ideas_runs i text now fs runs) ≡ some q
unfolding ideas_runs
other_ideas i k text now fs runs {r} {q} ne h hk =
    let v = json_or_null (Json.get "ideas" fs) in
    other_artifact i now k "ideas" (Json.str text) _ ne
      (own_artifact i now "ideas_original" v runs {r = r} h)
      (other_artifact i now k "ideas_original" v runs {r = r} {q = q} ne h hk)

same_run : {o : Option Run} {r q : Run} → o ≡ some r → o ≡ some q → r ≡ q
same_run {o} {r} {q} h k = cc

abbrev approved : ℕ → Option Run → Reply
approved i o = result (record {
  run_id = i;
  status = awaiting_ideation_approval;
  artifacts = artifacts_of o;
  current_step = some "ideation";
  error = none;
})

-- An approval of the ideas of a run that waits for it, with a text of the human's own: the text
-- becomes the run's ideas, what the run had as its ideas is kept beside it, the status stays, and so
-- does every other run; the answer has the status of the gate and the artifacts as stored.
pub approve_gate_lem :
    (lenient : Bool) (i k : ℕ) (override : Option String) (text : String) (now : ℕ) (d : Desk)
    {r q : Run} {fs : Fields}
    → Runs.get i d.runs ≡ some r
    → same_status r.status awaiting_ideation_approval ≡ true
    → r.artifacts ≡ some fs
    → override_text override ≡ some text
    → Runs.get k d.runs ≡ some q
    → let (reply, after) = approve_gate lenient i "ideation" override now d in
      (reply
        ≡ result (record {
          run_id = i;
          status = awaiting_ideation_approval;
          artifacts = (overridden text now r).artifacts;
          current_step = some "ideation";
          error = none;
        }))
      × (Runs.get k after.runs ≡ some (if k == i then overridden text now q else q))
unfolding approve_gate override_run ideas_runs
approve_gate_lem lenient i k override text now d {r} {q} {fs} h s a o hk =
    let passed =
      check_gate-pass lenient i "ideation" d.runs {r = r} {expected = awaiting_ideation_approval} h
        (unfold gate_status in refl) s in
    let dict : artifacts_dict r ≡ fs = rw a refl in
    let own =
      subst (λ f. Runs.get i (ideas_runs i text now f d.runs) ≡ some (overridden text now r)) dict
        (own_ideas i text now d.runs {r = r} h) in
    let each =
      by_id i k (overridden text now) d.runs (ideas_runs i text now fs d.runs) {q = q} hk
        (λ here.
          let same : r ≡ q = same_run h here in
          subst (λ x. Runs.get i (ideas_runs i text now fs d.runs) ≡ some (overridden text now x))
            same own)
        (λ ne. other_ideas i k text now fs d.runs {r = r} {q = q} ne h hk) in
    rw (passed, o, a, approve_gate) (ap (approved i) (rw a at own), each)
