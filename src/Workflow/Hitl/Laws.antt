-- ===== src/Workflow/Hitl/Laws.antt =====
-- What the gates promise.
use mathlib.Core.Path.{subst}
use mylo_ware.Common.{
  ℕ, String, ◌≡◌, refl, ap, ◌∙◌, All, [], ◌∷◌, inl, inr, Bool, true, false, Option, none, some,
  List, arith, ◌==◌, str_eq, if◌then◌else◌, Bool-cases,
}
use mylo_ware.Storage.Runs
use mylo_ware.Storage.Runs.{
  Run, status_is, step_is, error_is, Change, change, change_all, stamp, with_artifact,
  artifacts_dict,
}
use mylo_ware.Storage.Runs.Status.{RunStatus, rejected}
use mylo_ware.Workflow.Hitl.{
  Desk, Reply, error, wrong_status, gate_status, same_status, check_gate, approve_gate, reject_gate,
}
use mylo_ware.Workflow.Hitl.Changes.{rejected_run, own_run, other_run, by_id, check_gate-pass}

check_gate-refuse :
    (i : ℕ) (gate : String) (runs : List Run) {r : Run} {expected : RunStatus}
    → Runs.get i runs ≡ some r
    → gate_status gate ≡ some expected
    → same_status r.status expected ≡ false
    → check_gate false i gate runs ≡ inl wrong_status
unfolding check_gate
check_gate-refuse i gate runs h g s = rw (h, g, s, check_gate) refl

-- A run that does not wait at the gate is neither approved nor rejected there: both operations raise
-- and write nothing, unless background workflows are disabled.
pub wrong_status_refused :
    (artifact_id i : ℕ) (gate reason : String) (override : Option String) (now : ℕ) (d : Desk)
    {r : Run} {expected : RunStatus}
    → Runs.get i d.runs ≡ some r
    → gate_status gate ≡ some expected
    → same_status r.status expected ≡ false
    → (approve_gate false i gate override now d ≡ (error wrong_status, d))
      × (reject_gate false artifact_id i gate reason now d ≡ (error wrong_status, d))
unfolding approve_gate reject_gate
wrong_status_refused artifact_id i gate reason override now d {r} {expected} h g s =
    let refused = check_gate-refuse i gate d.runs {r = r} {expected = expected} h g s in
    (rw (refused, approve_gate) refl, rw (refused, reject_gate) refl)

-- A run that waits at the gate is rejected there: its status is rejected, its step is the gate, and
-- the reason stands in its error and its artifacts; every other run stays as it was.
pub reject_gate_lem :
    (lenient : Bool) (artifact_id i k : ℕ) (gate reason : String) (now : ℕ) (d : Desk) {r q : Run}
    {expected : RunStatus}
    → Runs.get i d.runs ≡ some r
    → gate_status gate ≡ some expected
    → same_status r.status expected ≡ true
    → Runs.get k d.runs ≡ some q
    → Runs.get k (reject_gate lenient artifact_id i gate reason now d).1.runs
      ≡ some (if k == i then rejected_run gate reason now q else q)
unfolding reject_gate
reject_gate_lem lenient artifact_id i k gate reason now d {r} {q} {expected} h g s hk =
    rw (check_gate-pass lenient i gate d.runs {r = r} {expected = expected} h g s, reject_gate)
      (by_id i k (rejected_run gate reason now) d.runs _ {q = q} hk
        (λ here. own_run i gate reason now d.runs {r = q} here)
        (λ ne. other_run i gate reason now k d.runs {r = r} {q = q} ne h hk))

not_rejected :
    {o : RunStatus} {expected : RunStatus}
    → some o ≡ some expected
    → same_status rejected o ≡ false
    → same_status rejected expected ≡ false
not_rejected {o} {expected} h s =
    let same : o ≡ expected = cc in subst (λ x. same_status rejected x ≡ false) same s

gate_status-open :
    (gate : String) {expected : RunStatus}
    → gate_status gate ≡ some expected
    → same_status rejected expected ≡ false
unfolding gate_status
gate_status-open gate {expected} h = elim (Bool-cases (str_eq gate "ideation")) [
  | inl e ↦ not_rejected (rw e at h) refl
  | inr e ↦ elim (Bool-cases (str_eq gate "publish")) [
    | inl f ↦ not_rejected (rw (e, f) at h) refl
    | inr f ↦ absurd (let k : none ≡ some expected = rw (e, f) at h in cc)
  ]
]

-- A call of one of the two operations on the run, at its time.
pub data GateCall : Type 0 where
  -- the gate, the override, the time
  approving : String → Option String → ℕ → GateCall
  -- the id of the artifact, the gate, the reason, the time
  rejecting : ℕ → String → String → ℕ → GateCall

abbrev pub gate_of : GateCall → String
gate_of (approving gate override now) = gate
gate_of (rejecting artifact_id gate reason now) = gate

unfoldable pub call_gate : ℕ → GateCall → Desk → Reply × Desk
unfolding approve_gate reject_gate
call_gate i (approving gate override now) d = approve_gate false i gate override now d
call_gate i (rejecting artifact_id gate reason now) d =
    reject_gate false artifact_id i gate reason now d

unfoldable pub call_gates : ℕ → List GateCall → Desk → Desk
unfolding call_gate
call_gates i [] d = d
call_gates i (c ∷ cs) d = call_gates i cs (call_gate i c d).1

-- The name of the gate is known.
abbrev pub AtGate : GateCall → Type 0
AtGate c = (expected : RunStatus) × (gate_status (gate_of c) ≡ some expected)

refused_call :
    (i : ℕ) (c : GateCall) (d : Desk) {r : Run}
    → Runs.get i d.runs ≡ some r
    → r.status ≡ rejected
    → AtGate c
    → call_gate i c d ≡ (error wrong_status, d)
unfolding call_gate
refused_call i (approving gate override now) d {r} h s (expected, g) =
    let differs : same_status r.status expected ≡ false =
      ap (λ x. same_status x expected) s ∙ gate_status-open gate {expected = expected} g in
    (wrong_status_refused 0 i gate "" override now d {r = r} {expected = expected} h g differs).0
refused_call i (rejecting artifact_id gate reason now) d {r} h s (expected, g) =
    let differs : same_status r.status expected ≡ false =
      ap (λ x. same_status x expected) s ∙ gate_status-open gate {expected = expected} g in
    (wrong_status_refused artifact_id i gate reason none now d {r = r} {expected = expected} h g
      differs).1

refused_calls :
    (i : ℕ) (cs : List GateCall) (d : Desk) {r : Run}
    → Runs.get i d.runs ≡ some r
    → r.status ≡ rejected
    → All AtGate cs
    → (All (λ c. call_gate i c d ≡ (error wrong_status, d)) cs) × (call_gates i cs d ≡ d)
unfolding call_gates
refused_calls i [] d h s all = (tt, refl)
refused_calls i (c ∷ cs) d {r} h s all =
    let refused = refused_call i c d {r = r} h s all.0 in
    let (others, same) = refused_calls i cs d {r = r} h s all.1 in
    ((refused, others), rw (refused, call_gates) same)

-- A rejection at a gate stands against further calls of the two operations, with background workflows
-- enabled: once a run that waited at a gate was rejected there, each call in any sequence of
-- approvals and rejections of it, at any gates, raises, and they leave everything as the rejection
-- left it.
pub rejection_final :
    (artifact_id i : ℕ) (gate reason : String) (now : ℕ) (d : Desk) (cs : List GateCall) {r : Run}
    {expected : RunStatus}
    → Runs.get i d.runs ≡ some r
    → gate_status gate ≡ some expected
    → same_status r.status expected ≡ true
    → All AtGate cs
    → let after = (reject_gate false artifact_id i gate reason now d).1 in
      (All (λ c. call_gate i c after ≡ (error wrong_status, after)) cs)
      × (call_gates i cs after ≡ after)
rejection_final artifact_id i gate reason now d cs {r} {expected} h g s all =
    let after = (reject_gate false artifact_id i gate reason now d).1 in
    let stored : Runs.get i after.runs ≡ some (rejected_run gate reason now r) = ground (
      arith,
      reject_gate_lem false artifact_id i i gate reason now d {r = r} {q = r} {expected = expected}
          h g s h,
    ) in
    refused_calls i cs after {r = rejected_run gate reason now r} stored refl all
