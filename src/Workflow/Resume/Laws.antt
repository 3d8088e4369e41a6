-- ===== src/Workflow/Resume/Laws.antt =====
-- What src/myloware/workflows/langgraph/resume.py and src/myloware/workflows/langgraph/hitl.py promise: the
-- graph goes on only from an interrupt that waits for the answer.
use mylo_ware.Common.{
  ℕ, String, ◌<>◌, ◌≡◌, refl, Bool, true, false, Option, none, some, ◌⊎◌, inl, inr, List, [], ◌∷◌,
  arith, str_eq, if◌then◌else◌, Any, Bool-cases, Option-cases,
}
use mylo_ware.Common.Json.{Json, Fields}
use mylo_ware.Storage.Runs
use mylo_ware.Storage.Runs.{Run}
use mylo_ware.Storage.Runs.Status
use mylo_ware.Storage.Artifacts.{get_by_run}
use mylo_ware.Workers.Session.{Tables}
use mylo_ware.Workflow.Clips.{select_latest_video_clip_urls}
use mylo_ware.Workflow.Resume.{
  after_failure, after_invoke, plan_with_clips, Interrupt, Snapshot, Engine, Options, waiting_for,
  id_of, Waited, found, skip, raises, time_over, wait_for, seen, Plan, plan_of, plan_videos,
  video_steps, strings, fail_run, carry_out, resume_after_videos, matching, expected_status,
  gate_answer, the_interrupt, admit_gate, resume_hitl_gate,
}

-- A look shows the interrupt with the id, the first that waits for the word.
pub record ShowsWaiting (word id : String) (look : String ⊎ Snapshot) : Type 0 where
  pub snapshot : Snapshot
  pub shows : look ≡ inr snapshot
  pub intr : Interrupt
  pub waits : waiting_for word snapshot.interrupts ≡ some intr
  pub has_id : intr.id ≡ some id

-- The graph waited for the word at the interrupt, when it was looked at.
abbrev pub Waits : String → String → List (String ⊎ Snapshot) → Type 0
Waits word id looks = Any (ShowsWaiting word id) looks

id_of_found :
    (o : Option Interrupt) (id : String)
    → id_of o ≡ some id
    → (i : Interrupt) × (o ≡ some i) × (i.id ≡ some id)
id_of_found none id h = absurd (cc)
id_of_found (some i) id h = (i, refl, ground (arith, h))

seen_found :
    (o : Option String) (terminal past : Bool) (later : Waited) (id : String)
    → seen o terminal past later ≡ found id
    → (o ≡ some id) ⊎ (later ≡ found id)
seen_found (some i) terminal past later id h = inl (cc)
seen_found none true past later id h = absurd (cc)
seen_found none false true later id h = absurd (cc)
seen_found none false false later id h = inr h

wait_for_found :
    (word : String) (steps : List String) (looks : List (String ⊎ Snapshot)) (id : String)
    → wait_for word steps looks ≡ found id
    → Waits word id looks
unfolding wait_for
wait_for_found word steps [] id h = absurd (cc)
wait_for_found word steps (inl problem ∷ rest) id h = absurd (cc)
wait_for_found word steps (inr s ∷ rest) id h =
    elim (seen_found (id_of (waiting_for word s.interrupts)) _ _ (wait_for word steps rest) id h) [
      | inl e ↦
          let (i, waits, has_id) = id_of_found (waiting_for word s.interrupts) id e in
          inl (record { snapshot = s; shows = refl; intr = i; waits = waits; has_id = has_id })
      | inr later ↦ inr (wait_for_found word steps rest id later)
    ]

-- The tables after a failure: as they were, or with the run failed.
abbrev pub FailedOrSame : Engine → ℕ → Tables → Tables → Type 0
FailedOrSame e i t t' = (t' ≡ t) ⊎ ((error : String) × (t' ≡ fail_run e i error t))

-- The graph went on once, from an interrupt that waited for the word, with the answer.
abbrev pub WentOn : Engine → ℕ → String → Json → Tables → Tables → Type 0
WentOn e i word answer t t' =
    (id : String) × Waits word id (e.looks i) × FailedOrSame e i (e.invoke i id answer t).1 t'

failure-FailedOrSame :
    (e : Engine) (o : Options) (i : ℕ) (error : String) (t : Tables)
    → FailedOrSame e i t (after_failure e o i error t).1
failure-FailedOrSame e o i error t = elim (Bool-cases o.fail_run_on_error) [
  | inl y ↦ inr (error, rw (y, after_failure) refl)
  | inr n ↦ inl (rw (n, after_failure) refl)
]

invoked-FailedOrSame :
    (e : Engine) (o : Options) (i : ℕ) (r : Option String × Tables)
    → FailedOrSame e i r.1 (after_invoke e o i r).1
invoked-FailedOrSame e o i (none, t) = inl refl
invoked-FailedOrSame e o i (some error, t) = failure-FailedOrSame e o i error t

module _ (e : Engine) (o : Options) (i : ℕ) where
  abbrev Ends : String → Json → Tables → Plan → Type 0
  Ends word answer t p =
      FailedOrSame e i t (carry_out e o i p t).1 ⊎ WentOn e i word answer t (carry_out e o i p t).1

  wait_ends :
      (word : String) (answer : Json) (message : String) (steps : List String) (t : Tables)
      (w : Waited)
      → wait_for word steps (e.looks i) ≡ w
      → Ends word answer t (plan_of answer message w)
  unfolding carry_out
  wait_ends word answer message steps t (found id) q = inr (
    id,
    wait_for_found word steps (e.looks i) id q,
    invoked-FailedOrSame e o i (e.invoke i id answer t),
  )
  wait_ends word answer message steps t skip q = inl (inl refl)
  wait_ends word answer message steps t time_over q = inl (inl refl)
  wait_ends word answer message steps t (raises problem) q =
      inl (failure-FailedOrSame e o i problem t)

  abbrev pub clips_answer : List String → Json
  clips_answer urls = Json.obj (Fields.field "video_urls" (Json.arr (strings urls)) Fields.end)

  abbrev pub Resumed : List String → Tables → Tables → Type 0
  Resumed urls t t' =
      FailedOrSame e i t t'
      ⊎ ((url : String) × (rest : List String) × (urls ≡ url ∷ rest)
          × WentOn e i "sora_webhook" (clips_answer urls) t t')

  clips_Resumed :
      (urls : List String) (t : Tables)
      → Resumed urls t (carry_out e o i (plan_with_clips e i urls) t).1
  clips_Resumed [] t = unfold carry_out in inl (failure-FailedOrSame e o i _ t)
  clips_Resumed (url ∷ urls) t =
      elim (wait_ends "sora_webhook" (clips_answer (url ∷ urls))
        ("No sora_webhook interrupt found for run "
          <> e.uuid_text i
          <> " after waiting "
          <> (if e.sora_is_real then "5.0s" else "30.0s"))
        video_steps t _ refl) [ inl h ↦ inl h | inr h ↦ inr (url, urls, refl, h) ]

-- A resume after videos leaves the tables as they are, or fails the run, or lets the graph go on once:
-- from an interrupt that waits for Sora, and with the public urls of the selected clips, of which
-- there is at least one; if that raises, the run may be failed after it.
pub resume_after_videos_lem :
    (e : Engine) (o : Options) (i : ℕ) (t : Tables)
    → Resumed e o i
        (select_latest_video_clip_urls e.media (get_by_run i t.artifacts))
        t
        (resume_after_videos e o i t).1
unfolding resume_after_videos plan_videos
resume_after_videos_lem e o i t = elim (Option-cases e.checkpointer_problem) [
  | inl q ↦
      rw (q, resume_after_videos, plan_videos)
        (clips_Resumed e o i (select_latest_video_clip_urls e.media (get_by_run i t.artifacts)) t)
  | inr (problem, q) ↦
      rw (q, resume_after_videos, plan_videos, carry_out)
        (inl (failure-FailedOrSame e o i problem t))
]

-- The gate is open to an answer: the run waits at it, and exactly one interrupt of the graph does.
pub record GateWaits (e : Engine) (i : ℕ) (gate id : String) (look : String ⊎ Snapshot) (t : Tables)
    : Type 0 where
  pub run : Run
  pub stored : Runs.get i t.runs ≡ some run
  pub status :
      str_eq (Runs.Status.value run.status) (Runs.Status.value (expected_status e gate)) ≡ true
  pub snapshot : Snapshot
  pub shows : look ≡ inr snapshot
  pub intr : Interrupt
  pub only : matching e gate snapshot.interrupts ≡ intr ∷ []
  pub has_id : intr.id ≡ some id

one_interrupt :
    (e : Engine) (i : ℕ) (gate id : String) (interrupts : List Interrupt)
    → the_interrupt e i gate interrupts ≡ inr id
    → (intr : Interrupt) × (interrupts ≡ intr ∷ []) × (intr.id ≡ some id)
unfolding the_interrupt
one_interrupt e i gate id [] h = absurd (cc)
one_interrupt e i gate id (intr ∷ []) h = (intr, refl, ground (arith, h))
one_interrupt e i gate id (intr ∷ other ∷ rest) h = absurd (cc)

admit_gate-GateWaits :
    (e : Engine) (i : ℕ) (gate id : String) (look : String ⊎ Snapshot) (t : Tables)
    → admit_gate e i gate look t ≡ inr id
    → GateWaits e i gate id look t
unfolding admit_gate
admit_gate-GateWaits e i gate id (inl problem) t h = absurd (ground (arith, h))
admit_gate-GateWaits e i gate id (inr s) t h = elim (Option-cases (Runs.get i t.runs)) [
  | inl q ↦ absurd (ground (arith, h, q))
  | inr (run, q) ↦
      let one : the_interrupt e i gate (matching e gate s.interrupts) ≡ inr id =
        ground (arith, h, q) in
      let (intr, only, has_id) = one_interrupt e i gate id (matching e gate s.interrupts) one in
      record {
        run = run;
        stored = q;
        status = ground (arith, h, q);
        snapshot = s;
        shows = refl;
        intr = intr;
        only = only;
        has_id = has_id;
      }
]

answer_cases :
    (e : Engine) (i : ℕ) (gate : String) (approved : Bool) (comment : Option String)
    (extra : Fields) (look : String ⊎ Snapshot) (t : Tables) (a : String ⊎ String)
    → admit_gate e i gate look t ≡ a
    → ((message : String) × (resume_hitl_gate e i gate approved comment extra look t
          ≡ (some message, t)))
      ⊎ ((id : String) × GateWaits e i gate id look t
          × (resume_hitl_gate e i gate approved comment extra look t
              ≡ e.invoke i id (gate_answer e approved comment extra) t))
unfolding resume_hitl_gate
answer_cases e i gate approved comment extra look t (inl message) q =
    inl (message, rw (q, resume_hitl_gate) refl)
answer_cases e i gate approved comment extra look t (inr id) q =
    inr (id, admit_gate-GateWaits e i gate id look t q, rw (q, resume_hitl_gate) refl)

-- The answer to a gate reaches the graph only where the run waits at that gate and exactly one
-- interrupt of the graph does, which has an id: it goes to that interrupt, once. Else an exception
-- is raised, and the tables stay as they are.
pub resume_hitl_gate_lem :
    (e : Engine) (i : ℕ) (gate : String) (approved : Bool) (comment : Option String)
    (extra : Fields) (look : String ⊎ Snapshot) (t : Tables)
    → ((message : String) × (resume_hitl_gate e i gate approved comment extra look t
          ≡ (some message, t)))
      ⊎ ((id : String) × GateWaits e i gate id look t
          × (resume_hitl_gate e i gate approved comment extra look t
              ≡ e.invoke i id (gate_answer e approved comment extra) t))
resume_hitl_gate_lem e i gate approved comment extra look t =
    answer_cases e i gate approved comment extra look t _ refl
