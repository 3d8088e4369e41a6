-- ===== src/Storage/Runs/Status.antt =====
-- `RunStatus` of src/myloware/storage/models.py and `_normalize_status` of
-- src/myloware/storage/repositories.py.
use mylo_ware.Common.{
  sym, ap, ◌∙◌, inl, inr, Option-cases, ℕ, String, ◌≡◌, refl, ◌↔◌, Option, none, some, List, [],
  ◌∷◌, arith,
}
use mylo_ware.Common.Text.{codes, codes_eq, codes_eq_iff, lower, lower_code}
use mylo_ware.Common.Rows.{first_where, first_where-passes}

pub data RunStatus : Type 0 where
  pending running awaiting_ideation_approval awaiting_video_generation : RunStatus
  awaiting_render awaiting_publish awaiting_publish_approval : RunStatus
  completed failed rejected : RunStatus

abbrev pub value : RunStatus → String
value pending = "pending"
value running = "running"
value awaiting_ideation_approval = "awaiting_ideation_approval"
value awaiting_video_generation = "awaiting_video_generation"
value awaiting_render = "awaiting_render"
value awaiting_publish = "awaiting_publish"
value awaiting_publish_approval = "awaiting_publish_approval"
value completed = "completed"
value failed = "failed"
value rejected = "rejected"

-- `for status in RunStatus`
abbrev pub all_statuses : List RunStatus
all_statuses =
    pending ∷ running ∷ awaiting_ideation_approval ∷ awaiting_video_generation ∷ awaiting_render
    ∷ awaiting_publish ∷ awaiting_publish_approval ∷ completed ∷ failed ∷ rejected ∷ []

-- `RunStatus(value)`
unfoldable pub of_value : List ℕ → Option RunStatus
unfolding first_where
of_value s = first_where (λ st. codes_eq s (codes (value st))) all_statuses

-- `_normalize_status` of a text; `none` is the `ValueError`.
unfoldable pub normalize_status : String → Option RunStatus
unfolding of_value lower lower_code
normalize_status s = elim (of_value (codes s)) [
  | some st ↦ some st
  | none ↦ of_value (lower (codes s))
]

of_value-value : (st : RunStatus) → of_value (codes (value st)) ≡ some st
unfolding of_value
of_value-value pending = refl
of_value-value _ = refl

value-lower : (st : RunStatus) → lower (codes (value st)) ≡ codes (value st)
unfolding lower lower_code
value-lower pending = refl
value-lower _ = refl

value-of_value : (s : List ℕ) {st : RunStatus} → of_value s ≡ some st → s ≡ codes (value st)
unfolding of_value
value-of_value s {st} h =
    (codes_eq_iff s (codes (value st))).0
      (first_where-passes (λ st. codes_eq s (codes (value st))) all_statuses {r = st} h)

normalize_forward :
    (s : String) (st : RunStatus)
    → normalize_status s ≡ some st
    → lower (codes s) ≡ codes (value st)
unfolding normalize_status
normalize_forward s st h = elim (Option-cases (of_value (codes s))) [
  | inl e ↦ value-of_value (lower (codes s)) (ground (arith, e, h))
  | inr (st', e) ↦
      let same : of_value (codes s) ≡ some st = ground (arith, e, h) in
      ap lower (value-of_value (codes s) same) ∙ value-lower st
]

normalize_backward :
    (s : String) (st : RunStatus)
    → lower (codes s) ≡ codes (value st)
    → normalize_status s ≡ some st
unfolding normalize_status
normalize_backward s st h = elim (Option-cases (of_value (codes s))) [
  | inl e ↦ ground (arith, e, ap of_value h, of_value-value st)
  | inr (st', e) ↦
      let spelled : codes (value st') ≡ codes (value st) =
        sym (value-lower st') ∙ sym (ap lower (value-of_value (codes s) e)) ∙ h in
      ground (arith, e, of_value-value st, of_value-value st', ap of_value spelled)
]

-- A text is accepted as a status exactly when its lower case spells the status.
pub normalize_status_iff :
    (s : String) (st : RunStatus)
    → (normalize_status s ≡ some st) ↔ (lower (codes s) ≡ codes (value st))
normalize_status_iff s st = (normalize_forward s st, normalize_backward s st)
