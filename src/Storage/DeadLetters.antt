-- ===== src/Storage/DeadLetters.antt =====
-- The dead letter table and `DeadLetterRepository` of src/myloware/storage/{models,repositories}.py.
pub mod Laws
use mylo_ware.Common.{
  ℕ, ◌+◌, String, Bool, true, false, ◌&&◌, Option, none, some, List, [], ◌∷◌, ◌++◌, ltb, ◌==◌,
  str_eq, if◌then◌else◌, select, sort_by,
}
use mylo_ware.Common.Rows.{update_where, first_where}
use mylo_ware.Common.Json.{Json}

pub record DeadLetter : Type 0 where
  pub id : ℕ
  pub source : String
  pub run_id : ℕ
  pub payload : Json
  pub error : Option String
  pub attempts : ℕ
  pub created_at : ℕ
  pub last_attempt_at : Option ℕ
  pub resolved_at : Option ℕ

abbrev pub has_id : ℕ → DeadLetter → Bool
has_id i d = d.id == i

-- `create`, with the new row's id and the time.
unfoldable pub create :
    ℕ → String → ℕ → Json → Option String → ℕ → ℕ → List DeadLetter → DeadLetter × List DeadLetter
create id source run_id payload error attempts now letters =
    let d : DeadLetter = record {
      id = id;
      source = source;
      run_id = run_id;
      payload = payload;
      error = error;
      attempts = attempts;
      created_at = now;
      last_attempt_at = some now;
      resolved_at = none;
    } in
    (d, letters ++ d ∷ [])

abbrev pub is_unresolved : DeadLetter → Bool
is_unresolved d = elim d.resolved_at [ none ↦ true | some t ↦ false ]

-- A source that is None or empty filters nothing.
abbrev pub from_source : Option String → DeadLetter → Bool
from_source none d = true
from_source (some s) d = if str_eq s "" then true else str_eq d.source s

-- `get_unresolved`: the most recent first.
unfoldable pub get_unresolved : Option String → List DeadLetter → List DeadLetter
unfolding select sort_by
get_unresolved source letters =
    sort_by (λ a b. ltb b.created_at a.created_at)
      (select (λ d. is_unresolved d && from_source source d) letters)

unfoldable pub get : ℕ → List DeadLetter → Option DeadLetter
unfolding first_where
get i letters = first_where (has_id i) letters

-- `mark_resolved`: without the letter, nothing.
unfoldable pub mark_resolved : ℕ → ℕ → List DeadLetter → List DeadLetter
unfolding update_where
mark_resolved i now letters =
    update_where (has_id i) (λ d. record d { resolved_at = some now }) letters

-- `increment_attempts`
unfoldable pub increment_attempts : ℕ → ℕ → List DeadLetter → List DeadLetter
unfolding update_where
increment_attempts i now letters =
    update_where (has_id i)
      (λ d. record d { attempts = d.attempts + 1; last_attempt_at = some now }) letters
