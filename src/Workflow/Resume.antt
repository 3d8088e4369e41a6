-- ===== src/Workflow/Resume.antt =====
-- src/myloware/workflows/langgraph/resume.py and `resume_hitl_gate` of
-- src/myloware/workflows/langgraph/hitl.py: a run goes on from the interrupt at which its graph waits.
--
-- The engine is a parameter: what each look at the graph's state shows while there is time to wait
-- (`looks`, the last one before the time is over included), and what `graph.ainvoke` makes of the
-- tables. Its sessions are its own, and it commits them.
pub mod Laws
use mylo_ware.Common.{
  ℕ, String, ◌<>◌, Bool, true, false, ◌&&◌, ◌||◌, Option, none, some, ◌⊎◌, inl, inr, List, [], ◌∷◌,
  str_eq, if◌then◌else◌, length,
}
use mylo_ware.Common.Json
use mylo_ware.Common.Json.{Json, Items, Fields, is_text}
use mylo_ware.Common.Rows.{first_where}
use mylo_ware.Storage.Runs
use mylo_ware.Storage.Runs.{Run, Change}
use mylo_ware.Storage.Runs.Status
use mylo_ware.Storage.Runs.Status.{RunStatus}
use mylo_ware.Storage.Artifacts.{get_by_run}
use mylo_ware.Workers.Session.{Tables}
use mylo_ware.Workflow.Clips.{Media, is_empty, select_latest_video_clip_urls}

-- An interrupt: its id, if it has one, and its value, {} where that is no dict.
pub record Interrupt : Type 0 where
  pub id : Option String
  pub value : Fields

-- What the state of the graph shows.
pub record Snapshot : Type 0 where
  pub interrupts : List Interrupt
  pub current_step : Option String
  pub status : Option String

pub record Engine : Type 0 where
  pub use_langgraph_engine : Bool
  pub dispatcher_is_db : Bool
  pub sora_is_real : Bool
  -- what `ensure_checkpointer_initialized` or `get_graph` raised
  pub checkpointer_problem : Option String
  pub looks : ℕ → List (String ⊎ Snapshot)
  pub invoke : ℕ → String → Json → Tables → Option String × Tables
  pub media : Media
  pub now : ℕ
  pub uuid_text : ℕ → String

abbrev pub filled : Option String → Bool
filled none = false
filled (some s) = if is_empty s then false else true

-- The first interrupt that waits for the word; whether it has an id is not looked at here.
unfoldable pub waiting_for : String → List Interrupt → Option Interrupt
unfolding is_text first_where
waiting_for word interrupts = first_where (λ i. is_text "waiting_for" word i.value) interrupts

abbrev pub id_of : Option Interrupt → Option String
id_of none = none
id_of (some i) = elim i.id [ none ↦ none | some s ↦ if is_empty s then none else some s ]

abbrev one_of : String → List String → Bool
one_of s [] = false
one_of s (w ∷ ws) = str_eq s w || one_of s ws

abbrev pub is_terminal : Option String → Bool
is_terminal none = false
is_terminal (some s) = one_of s ("completed" ∷ "failed" ∷ "rejected" ∷ [])

-- The graph has gone past the steps at which this resume makes sense.
abbrev pub is_past : List String → Option String → Bool
is_past steps none = false
is_past steps (some s) = if is_empty s then false else if one_of s steps then false else true

-- How the wait ends.
pub data Waited : Type 0 where
  found : String → Waited
  skip : Waited
  raises : String → Waited
  time_over : Waited

abbrev pub seen : Option String → Bool → Bool → Waited → Waited
seen (some i) terminal past later = found i
seen none true past later = skip
seen none false true later = skip
seen none false false later = later

-- The loop: one turn for each look.
unfoldable pub wait_for : String → List String → List (String ⊎ Snapshot) → Waited
unfolding waiting_for
wait_for word steps [] = time_over
wait_for word steps (inl problem ∷ rest) = raises problem
wait_for word steps (inr s ∷ rest) =
    let later = wait_for word steps rest in
    seen (id_of (waiting_for word s.interrupts)) (is_terminal s.status)
      (is_past steps s.current_step) later

-- What becomes of a resume: nothing is to be done, the graph goes on with an answer to an interrupt,
-- it is to be tried again (`ResumeRetryableError`), or an exception.
pub data Plan : Type 0 where
  nothing : Plan
  go_on : String → Json → Plan
  try_again : String → Plan
  fails : String → Plan

abbrev pub plan_of : Json → String → Waited → Plan
plan_of answer message (found i) = go_on i answer
plan_of answer message skip = nothing
plan_of answer message (raises problem) = fails problem
plan_of answer message time_over = try_again message

unfoldable pub strings : List String → Items
strings [] = Items.nil
strings (s ∷ rest) = Items.cons (Json.str s) (strings rest)

abbrev pub video_steps : List String
video_steps = "production" ∷ "wait_for_videos" ∷ []

abbrev pub render_steps : List String
render_steps = "editing" ∷ "wait_for_render" ∷ []

-- `raise_on_error` and `fail_run_on_error`
pub record Options : Type 0 where
  pub raise_on_error : Bool
  pub fail_run_on_error : Bool

module _ (e : Engine) where
  abbrev pub plan_with_clips : ℕ → List String → Plan
  plan_with_clips i [] = fails ("No video clips found for run " <> e.uuid_text i)
  plan_with_clips i (url ∷ urls) =
      plan_of (Json.obj (Fields.field "video_urls" (Json.arr (strings (url ∷ urls))) Fields.end))
        ("No sora_webhook interrupt found for run "
          <> e.uuid_text i
          <> " after waiting "
          <> (if e.sora_is_real then "5.0s" else "30.0s"))
        (wait_for "sora_webhook" video_steps (e.looks i))

  unfoldable pub plan_videos : ℕ → Tables → Plan
  unfolding wait_for strings select_latest_video_clip_urls get_by_run
  plan_videos i t = elim e.checkpointer_problem [
    | some problem ↦ fails problem
    | none ↦ plan_with_clips i (select_latest_video_clip_urls e.media (get_by_run i t.artifacts))
  ]

  unfoldable pub plan_render : ℕ → String → Plan
  unfolding wait_for
  plan_render i video_url = elim e.checkpointer_problem [
    | some problem ↦ fails problem
    | none ↦
        plan_of (Json.obj (Fields.field "video_url" (Json.str video_url) Fields.end))
          ("No remotion_webhook interrupt found for run " <> e.uuid_text i <> " after waiting 5.0s")
          (wait_for "remotion_webhook" render_steps (e.looks i))
  ]

  -- `except Exception`: the run fails, if that is asked for.
  unfoldable pub fail_run : ℕ → String → Tables → Tables
  unfolding Runs.update
  fail_run i error t = record t {
    runs =
        (Runs.update i
          (Change.status_text (Runs.Status.value RunStatus.failed)
            ∷ Change.error_is (some error)
            ∷ [])
          e.now t.runs).1;
  }

  abbrev pub when : Bool → String → Option String
  when true message = some message
  when false message = none

  abbrev pub after_failure : Options → ℕ → String → Tables → Option String × Tables
  after_failure o i error t =
      (when o.raise_on_error error, if o.fail_run_on_error then fail_run i error t else t)

  abbrev pub after_invoke : Options → ℕ → Option String × Tables → Option String × Tables
  after_invoke o i (none, t) = (none, t)
  after_invoke o i (some error, t) = after_failure o i error t

  -- What a resume raises, and what it makes of the tables.
  unfoldable pub carry_out : Options → ℕ → Plan → Tables → Option String × Tables
  unfolding fail_run
  carry_out o i nothing t = (none, t)
  carry_out o i (go_on intr answer) t = after_invoke o i (e.invoke i intr answer t)
  carry_out o i (try_again message) t = (when (o.raise_on_error || e.dispatcher_is_db) message, t)
  carry_out o i (fails error) t = after_failure o i error t

  unfoldable pub resume_after_videos : Options → ℕ → Tables → Option String × Tables
  unfolding carry_out plan_videos
  resume_after_videos o i t = carry_out o i (plan_videos i t) t

  unfoldable pub resume_after_render : Options → ℕ → String → Tables → Option String × Tables
  unfolding carry_out plan_render
  resume_after_render o i video_url t =
      if is_empty video_url
      then (some "video_url is required to resume after render", t)
      else carry_out o i (plan_render i video_url) t

  -- `resume_hitl_gate`. An interrupt is the gate's if it names the gate, or waits for it.
  abbrev pub is_gate : String → Interrupt → Bool
  is_gate gate i = is_text "gate" gate i.value || is_text "waiting_for" ("hitl_" <> gate) i.value

  unfoldable pub matching : String → List Interrupt → List Interrupt
  unfolding is_text
  matching gate [] = []
  matching gate (i ∷ rest) =
      let others = matching gate rest in if is_gate gate i then i ∷ others else others

  abbrev pub expected_status : String → RunStatus
  expected_status gate =
      if str_eq gate "ideation"
      then RunStatus.awaiting_ideation_approval
      else RunStatus.awaiting_publish_approval

  abbrev with_comment : Option String → Fields → Fields
  with_comment none fs = fs
  with_comment (some c) fs = if is_empty c then fs else Json.put "comment" (Json.str c) fs

  -- `d.update(data)`
  put_all : Fields → Fields → Fields
  unfolding Json.put
  put_all Fields.end fs = fs
  put_all (Fields.field k v rest) fs = put_all rest (Json.put k v fs)

  unfoldable pub gate_answer : Bool → Option String → Fields → Json
  unfolding Json.put put_all
  gate_answer approved comment extra = Json.obj (
      put_all extra
        (with_comment comment (Fields.field "approved" (Json.bool approved) Fields.end)))

  -- The one interrupt of the gate, by its id; else the message of the `ValueError`.
  unfoldable pub the_interrupt : ℕ → String → List Interrupt → String ⊎ String
  the_interrupt i gate [] =
      inl ("No pending " <> gate <> " interrupt found for run " <> e.uuid_text i)
  the_interrupt i gate (intr ∷ []) = elim (id_of (some intr)) [
    | none ↦ inl ("Interrupt is missing an id for run " <> e.uuid_text i)
    | some id ↦ inr id
  ]
  the_interrupt i gate (intr ∷ other ∷ rest) =
      inl ("Multiple pending " <> gate <> " interrupts found for run " <> e.uuid_text i)

  -- The guards: the engine is on, the run waits at the gate, and the graph does.
  abbrev look_at_gate : ℕ → String → String ⊎ Snapshot → String ⊎ String
  look_at_gate i gate (inl problem) = inl problem
  look_at_gate i gate (inr s) = the_interrupt i gate (matching gate s.interrupts)

  unfoldable pub admit_gate : ℕ → String → String ⊎ Snapshot → Tables → String ⊎ String
  unfolding Runs.get the_interrupt matching
  admit_gate i gate look t =
      if e.use_langgraph_engine
      then elim (Runs.get i t.runs) [
        | none ↦ inl ("Run " <> e.uuid_text i <> " not found")
        | some run ↦
            if str_eq (Runs.Status.value run.status) (Runs.Status.value (expected_status gate))
            then elim e.checkpointer_problem [
              | some problem ↦ inl problem
              | none ↦ look_at_gate i gate look
            ]
            else inl (
                "Run "
                <> e.uuid_text i
                <> " status '"
                <> Runs.Status.value run.status
                <> "' does not match expected '"
                <> Runs.Status.value (expected_status gate)
                <> "'")
      ]
      else inl "LangGraph engine is not enabled"

  -- What it raises, and what it makes of the tables. What it returns is read from the run after that.
  unfoldable pub resume_hitl_gate :
      ℕ
      → String
      → Bool
      → Option String
      → Fields
      → String ⊎ Snapshot
      → Tables
      → Option String × Tables
  unfolding admit_gate gate_answer
  resume_hitl_gate i gate approved comment extra look t = elim (admit_gate i gate look t) [
    | inl message ↦ (some message, t)
    | inr id ↦ e.invoke i id (gate_answer approved comment extra) t
  ]
