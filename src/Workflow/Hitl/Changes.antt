-- ===== src/Workflow/Hitl/Changes.antt =====
-- What the repository calls of a gate leave of each run.
use mathlib.Core.Path.{subst}
use mylo_ware.Common.{
  ℕ, String, ◌≡◌, refl, sym, inl, inr, Bool, true, false, some, List, [], ◌∷◌, arith, ◌==◌,
  if◌then◌else◌, Bool-cases, ==_iff,
}
use mylo_ware.Common.Json
use mylo_ware.Common.Json.{Json, get-put}
use mylo_ware.Storage.Runs
use mylo_ware.Storage.Runs.{
  Run, status_is, step_is, error_is, Change, change, change_all, stamp, with_artifact,
  artifacts_dict,
}
use mylo_ware.Storage.Runs.Update.{update_lem, add_artifact_lem}
use mylo_ware.Storage.Runs.Status.{RunStatus, rejected}
use mylo_ware.Workflow.Hitl.{
  gate_status, same_status, check_gate, add_text, rejection_message, rejected_runs,
}

-- The run after a rejection.
abbrev pub rejected_run : String → String → ℕ → Run → Run
rejected_run gate reason now q = record q {
  status = rejected;
  current_step = some gate;
  error = some (rejection_message gate reason);
  artifacts = some (
      Json.put "rejected_gate" (Json.str gate)
        (Json.put "rejection_reason" (Json.str reason) (artifacts_dict q)));
  updated_at = some now;
}

module _ (i now : ℕ) where
  one_change :
      (k : ℕ) (c : Change) (runs : List Run) {r q q' : Run}
      → Runs.get i runs ≡ some r
      → Runs.get k runs ≡ some q
      → change c q ≡ some q'
      → Runs.get k (Runs.update i (c ∷ []) now runs).1 ≡ some (if k == i then stamp now q' else q)
  unfolding change_all
  one_change k c runs {r} {q} h hk e =
      ground (arith, (update_lem i k (c ∷ []) now runs {r = r} {q = q} h hk).0, e)

  one_artifact :
      (k : ℕ) (key : String) (v : Json) (runs : List Run) {r q : Run}
      → Runs.get i runs ≡ some r
      → Runs.get k runs ≡ some q
      → Runs.get k (add_text i key v now runs)
        ≡ some (if k == i then stamp now (with_artifact key v q) else q)
  unfolding add_text
  one_artifact k key v runs {r} {q} h hk =
      (add_artifact_lem i k key key v now runs {r = r} {q = q} h hk).1

  own_change :
      (c : Change) (runs : List Run) {r r' : Run}
      → Runs.get i runs ≡ some r
      → change c r ≡ some r'
      → Runs.get i (Runs.update i (c ∷ []) now runs).1 ≡ some (stamp now r')
  own_change c runs {r} {r'} h e =
      ground (arith, one_change i c runs {r = r} {q = r} {q' = r'} h h e)

  pub own_artifact :
      (key : String) (v : Json) (runs : List Run) {r : Run}
      → Runs.get i runs ≡ some r
      → Runs.get i (add_text i key v now runs) ≡ some (stamp now (with_artifact key v r))
  own_artifact key v runs {r} h = ground (arith, one_artifact i key v runs {r = r} {q = r} h h)

  other_change :
      (k : ℕ) (c : Change) (runs : List Run) {r q q' : Run}
      → (k == i) ≡ false
      → Runs.get i runs ≡ some r
      → Runs.get k runs ≡ some q
      → change c q ≡ some q'
      → Runs.get k (Runs.update i (c ∷ []) now runs).1 ≡ some q
  other_change k c runs {r} {q} {q'} ne h hk e =
      ground (arith, ne, one_change k c runs {r = r} {q = q} {q' = q'} h hk e)

  pub other_artifact :
      (k : ℕ) (key : String) (v : Json) (runs : List Run) {r q : Run}
      → (k == i) ≡ false
      → Runs.get i runs ≡ some r
      → Runs.get k runs ≡ some q
      → Runs.get k (add_text i key v now runs) ≡ some q
  other_artifact k key v runs {r} {q} ne h hk =
      ground (arith, ne, one_artifact k key v runs {r = r} {q = q} h hk)

module _ (i : ℕ) (gate reason : String) (now : ℕ) where
  pub own_run :
      (runs : List Run) {r : Run}
      → Runs.get i runs ≡ some r
      → Runs.get i (rejected_runs i gate reason now runs) ≡ some (rejected_run gate reason now r)
  unfolding rejected_runs change stamp with_artifact
  own_run runs {r} h =
      let closed = own_change i now (status_is rejected) runs {r = r} h refl in
      let stepped = own_change i now (step_is (some gate)) _ closed refl in
      let reasoned = own_artifact i now "rejection_reason" (Json.str reason) _ stepped in
      let gated = own_artifact i now "rejected_gate" (Json.str gate) _ reasoned in
      own_change i now (error_is (some (rejection_message gate reason))) _ gated refl

  pub other_run :
      (k : ℕ) (runs : List Run) {r q : Run}
      → (k == i) ≡ false
      → Runs.get i runs ≡ some r
      → Runs.get k runs ≡ some q
      → Runs.get k (rejected_runs i gate reason now runs) ≡ some q
  unfolding rejected_runs change stamp with_artifact
  other_run k runs {r} {q} ne h hk =
      let closed = own_change i now (status_is rejected) runs {r = r} h refl in
      let stepped = own_change i now (step_is (some gate)) _ closed refl in
      let reasoned = own_artifact i now "rejection_reason" (Json.str reason) _ stepped in
      let gated = own_artifact i now "rejected_gate" (Json.str gate) _ reasoned in
      let closed_k = other_change i now k (status_is rejected) runs {r = r} {q = q} ne h hk refl in
      let stepped_k = other_change i now k (step_is (some gate)) _ ne closed closed_k refl in
      let reasoned_k =
        other_artifact i now k "rejection_reason" (Json.str reason) _ ne stepped stepped_k in
      let gated_k =
        other_artifact i now k "rejected_gate" (Json.str gate) _ ne reasoned reasoned_k in
      other_change i now k (error_is (some (rejection_message gate reason))) _ ne gated gated_k refl

-- What holds of the run `i` and of the others holds of each run `k`.
pub by_id :
    (i k : ℕ) (f : Run → Run) (runs runs' : List Run) {q : Run}
    → Runs.get k runs ≡ some q
    → (Runs.get i runs ≡ some q → Runs.get i runs' ≡ some (f q))
    → ((k == i) ≡ false → Runs.get k runs' ≡ some q)
    → Runs.get k runs' ≡ some (if k == i then f q else q)
by_id i k f runs runs' {q} hk own other = elim (Bool-cases (k == i)) [
  | inr ne ↦ ground (arith, ne, other ne)
  | inl e ↦
      let same : k ≡ i = (==_iff k i).0 e in
      let stored = own (subst (λ x. Runs.get x runs ≡ some q) same hk) in
      ground (arith, e, subst (λ x. Runs.get x runs' ≡ some (f q)) (sym same) stored)
]

pub check_gate-pass :
    (lenient : Bool) (i : ℕ) (gate : String) (runs : List Run) {r : Run} {expected : RunStatus}
    → Runs.get i runs ≡ some r
    → gate_status gate ≡ some expected
    → same_status r.status expected ≡ true
    → check_gate lenient i gate runs ≡ inr (r, expected)
unfolding check_gate
check_gate-pass lenient i gate runs h g s = rw (h, g, s, check_gate) refl
