-- ===== src/Workers/Handlers/Clips.antt =====
-- The clips that the handlers of src/myloware/workers/handlers.py store, by the task that each is of.
use mylo_ware.Common.{
  ℕ, String, ◌≡◌, refl, ◌∙◌, ◌≢◌, Bool, false, ◌&&◌, ◌||◌, Option, none, some, inl, inr, List, [],
  ◌∷◌, ◌++◌, arith, eq_iff, ◌==◌, str_eq, All, any, any-sort_by, any-select, All-any, select,
  if◌then◌else◌, ltb, Option-cases,
}
use mylo_ware.Common.Json
use mylo_ware.Common.Json.{Json, Fields, get-put, truthy}
use mylo_ware.Common.Rows.{Pairwise, Pairwise-append_one}
use mylo_ware.Storage.Artifacts.{Artifact, video_clip, get_by_run, with_trace}
use mylo_ware.Workers.Session.{Tables}
use mylo_ware.Workers.Handlers.Services.{Services, is_type, meta_of, has_meta, json_eq}
use mylo_ware.Workers.Handlers.SoraPoll.{existing_task_ids, one_of}

-- The task of which an artifact is the clip: a text that is not empty.
abbrev pub task_in : Option Json → Option String
task_in (some (Json.str t)) = if str_eq t "" then none else some t
task_in _ = none

unfoldable pub task_of : Artifact → Option String
unfolding Json.get
task_of a = if is_type video_clip a then task_in (Json.get "task_id" (meta_of a)) else none

-- Two artifacts are not clips of one task of one run.
abbrev pub Distinct : Artifact → Artifact → Type 0
Distinct a b = (t : String) → a.run_id ≡ b.run_id → task_of a ≡ some t → task_of b ≢ some t

-- Each run has at most one clip of a task.
abbrev pub OneClip : Tables → Type 0
OneClip t = Pairwise Distinct t.artifacts

abbrev pub has_task : String → Artifact → Bool
has_task t a = elim (task_of a) [ none ↦ false | some u ↦ str_eq u t ]

-- A clip of the task is among the artifacts of the run.
unfoldable pub stored_clip : ℕ → String → List Artifact → Bool
unfolding task_of
stored_clip i t artifacts = any (λ a. a.run_id == i && has_task t a) artifacts

pub any-get_by_run :
    (test : Artifact → Bool) (i : ℕ) (artifacts : List Artifact)
    → any test (get_by_run i artifacts) ≡ any (λ a. a.run_id == i && test a) artifacts
unfolding get_by_run
any-get_by_run test i artifacts =
    any-sort_by test (λ a b. ltb a.created_at b.created_at) (select (λ a. a.run_id == i) artifacts)
    ∙ any-select test (λ a. a.run_id == i) artifacts

-- A new clip of a task that has none is distinct from all the others.
appended_clip :
    (t : String) (artifacts : List Artifact) (n : Artifact)
    → All (λ a. (a.run_id == n.run_id && has_task t a) ≡ false) artifacts
    → task_of n ≡ some t
    → All (λ a. Distinct a n) artifacts
appended_clip t [] n h e = tt
appended_clip t (a ∷ rest) n h e =
    (λ u same ea en. ground (arith, h.0, same, ea, en, e, eq_iff u t), appended_clip t rest n h.1 e)

appended_other :
    (artifacts : List Artifact) (n : Artifact)
    → task_of n ≡ none
    → All (λ a. Distinct a n) artifacts
appended_other [] n e = tt
appended_other (a ∷ rest) n e = (λ u same ea en. cc (e, en), appended_other rest n e)

pub with_trace_task :
    (trace : Option String) (meta : Fields)
    → Json.get "task_id" (with_trace trace meta) ≡ Json.get "task_id" meta
unfolding with_trace
with_trace_task none meta = refl
with_trace_task (some t) meta = ground (arith, get-put "trace_id" "task_id" (Json.str t) meta)

-- A new artifact whose task, if it has one, has no clip in the run.
pub OneClip-append :
    (artifacts : List Artifact) (n : Artifact)
    → ((t : String) → task_of n ≡ some t → stored_clip n.run_id t artifacts ≡ false)
    → Pairwise Distinct artifacts
    → Pairwise Distinct (artifacts ++ n ∷ [])
unfolding stored_clip
OneClip-append artifacts n fits h =
    Pairwise-append_one Distinct artifacts n h (elim (Option-cases (task_of n)) [
      | inl e ↦ appended_other artifacts n e
      | inr (t, e) ↦
          appended_clip t artifacts n
            (All-any (λ a. a.run_id == n.run_id && has_task t a) artifacts (fits t e)) e
    ])

-- The clip that the webhook looks for is the clip of the task.
same_json :
    (sv : Services) (t : String) (o : Option Json)
    → str_eq t "" ≡ false
    → elim o [ none ↦ false | some w ↦ json_eq sv w (Json.str t) ]
      ≡ elim (task_in o) [ none ↦ false | some u ↦ str_eq u t ]
unfolding json_eq
same_json sv t none h = refl
same_json sv t (some (Json.str s)) h = ground (arith, eq_iff s t, eq_iff s "", eq_iff t "", h)
same_json sv t (some Json.null) h = refl
same_json sv t (some (Json.bool b)) h = refl
same_json sv t (some (Json.num n)) h = refl
same_json sv t (some (Json.arr xs)) h = refl
same_json sv t (some (Json.obj fs)) h = refl

pub has_meta-has_task :
    (sv : Services) (t : String) (a : Artifact)
    → str_eq t "" ≡ false
    → has_meta sv video_clip "task_id" (Json.str t) a ≡ has_task t a
unfolding has_meta task_of
has_meta-has_task sv t a h = ground (arith, same_json sv t (Json.get "task_id" (meta_of a)) h)

-- The tasks that the poll passes over are those with a clip.
same_task :
    (t : String) (o : Option Json) (rest : List String)
    → str_eq t "" ≡ false
    → one_of t (elim o [ some (Json.str s) ↦ if str_eq s "" then rest else s ∷ rest | _ ↦ rest ])
      ≡ (elim (task_in o) [ none ↦ false | some u ↦ str_eq u t ] || one_of t rest)
same_task t none rest h = refl
same_task t (some (Json.str s)) rest h = ground (arith, eq_iff s t, eq_iff s "", eq_iff t "", h)
same_task t (some Json.null) rest h = refl
same_task t (some (Json.bool b)) rest h = refl
same_task t (some (Json.num n)) rest h = refl
same_task t (some (Json.arr xs)) rest h = refl
same_task t (some (Json.obj fs)) rest h = refl

pub one_of-existing_task_ids :
    (sv : Services) (t : String) (artifacts : List Artifact)
    → str_eq t "" ≡ false
    → one_of t (existing_task_ids sv artifacts) ≡ any (has_task t) artifacts
unfolding existing_task_ids task_of
one_of-existing_task_ids sv t [] h = refl
one_of-existing_task_ids sv t (a ∷ rest) h = ground (
  arith,
  same_task t (Json.get "task_id" (meta_of a)) (existing_task_ids sv rest) h,
  one_of-existing_task_ids sv t rest h,
)
