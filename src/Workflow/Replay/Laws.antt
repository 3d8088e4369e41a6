-- ===== src/Workflow/Replay/Laws.antt =====
-- What a replay does, and what becomes of the letters that the worker writes.
use mylo_ware.Common.{
  ℕ, String, ◌≡◌, ◌↔◌, refl, Bool, true, Option, none, some, ◌⊎◌, inl, inr, str_eq, if◌then◌else◌,
  Option-cases, Bool-cases,
}
use mylo_ware.Common.Text.{codes, ends_with}
use mylo_ware.Common.Json.{Json, Items}
use mylo_ware.Storage.Jobs.{Job}
use mylo_ware.Storage.DeadLetters.{DeadLetter}
use mylo_ware.Workers.Process.{Environment, webhook_source, letter_payload}
use mylo_ware.Workers.Laws.{letter_of}
use mylo_ware.Workflow.Replay.{
  Failure, missing_videos, missing_video, Resume, after_videos, after_render, Outcome, failed,
  object_of, replay_videos, replay_render, replay_dead_letter,
}

abbrev pub run_of : Resume → ℕ
run_of (after_videos i) = i
run_of (after_render i v) = i

abbrev pub IsReplayed : Outcome → Type 0
IsReplayed (failed e) = ⊥
IsReplayed _ = Unit

-- What a replay comes to, for its call and its outcome: the call resumes the run, and the outcome is
-- a success where the call was made and came back.
abbrev pub Resumes : (Resume → Bool) → ℕ → Option Resume × Outcome → Type 0
Resumes resumes i (none, o) = ¬ IsReplayed o
Resumes resumes i (some c, o) = (run_of c ≡ i) × (IsReplayed o ↔ (resumes c ≡ true))

videos_resume :
    (resumes : Resume → Bool) (i : ℕ) (found : Failure ⊎ Items)
    → Resumes resumes i (replay_videos resumes i found)
unfolding replay_videos
videos_resume resumes i (inl e) = λ h. h
videos_resume resumes i (inr Items.nil) = λ h. h
videos_resume resumes i (inr (Items.cons v vs)) = elim (Bool-cases (resumes (after_videos i))) [
  | inl e ↦ rw e (refl, (λ h. refl, λ h. tt))
  | inr e ↦ rw e (refl, (λ h. elim h [ ], λ h. absurd (cc)))
]

render_resume :
    (resumes : Resume → Bool) (i : ℕ) (found : Option Json)
    → Resumes resumes i (replay_render resumes i found)
unfolding replay_render
render_resume resumes i none = λ h. h
render_resume resumes i (some v) = elim (Bool-cases (resumes (after_render i v))) [
  | inl e ↦ rw e (refl, (λ h. refl, λ h. tt))
  | inr e ↦ rw e (refl, (λ h. elim h [ ], λ h. absurd (cc)))
]

-- A replay resumes the letter's own run or nothing, at most once, and it reports success exactly
-- where it made a call and the call came back.
pub replay_dead_letter-Resumes :
    (loads : String → Option Json) (resumes : Resume → Bool) (d : DeadLetter)
    → Resumes resumes d.run_id (replay_dead_letter loads resumes d)
unfolding replay_dead_letter
replay_dead_letter-Resumes loads resumes d = elim (Option-cases (object_of d.payload)) [
  | inl e ↦ rw (e, replay_dead_letter) (λ h. h)
  | inr (payload, e) ↦ elim (Bool-cases (str_eq d.source "sora")) [
    | inl s ↦ rw (e, s, replay_dead_letter) (videos_resume resumes d.run_id _)
    | inr s ↦ elim (Bool-cases (str_eq d.source "remotion")) [
      | inl r ↦ rw (e, s, r, replay_dead_letter) (render_resume resumes d.run_id _)
      | inr r ↦ rw (e, s, r, replay_dead_letter) (λ h. h)
    ]
  ]
]

source_cases : (j : Job) → (webhook_source j ≡ "sora") ⊎ (webhook_source j ≡ "remotion")
unfolding webhook_source
source_cases j = elim (Bool-cases (ends_with (codes j.job_type) (codes "sora"))) [
  | inl e ↦ rw e (inl refl)
  | inr e ↦ rw e (inr refl)
]

-- No letter that the worker writes can be replayed: its payload holds the job's payload one level
-- down, under the key "payload", where the replay does not look. It fails as a letter without urls,
-- and resumes nothing, whatever the job's payload holds.
pub worker_letters_fail :
    (loads : String → Option Json) (resumes : Resume → Bool) (env : Environment) (j : Job)
    (error : String)
    → replay_dead_letter loads resumes (letter_of env j error)
      ≡ (none, failed (if str_eq (webhook_source j) "sora" then missing_videos else missing_video))
unfolding replay_dead_letter letter_payload
worker_letters_fail loads resumes env j error = elim (source_cases j) [
  | inl e ↦ rw e refl
  | inr e ↦ rw e refl
]
