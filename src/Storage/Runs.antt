-- ===== src/Storage/Runs.antt =====
-- The run table, `RunStatus` and `RunRepository` of src/myloware/storage/{models,repositories}.py.
-- The blocking and the async methods are the same statements.
pub mod Status
pub mod Update
pub mod Queries
use Status.{value, RunStatus, pending, normalize_status}
use mylo_ware.Common.{
  ℕ, String, Bool, true, false, ◌&&◌, Option, none, some, List, [], ◌∷◌, ◌++◌, ltb, ◌==◌, str_eq,
  if◌then◌else◌, select, sort_by, or_else,
}
use mylo_ware.Common.Rows.{update_where, first_where}
use mylo_ware.Common.Json
use mylo_ware.Common.Json.{Json, Fields}

pub record Run : Type 0 where
  pub id : ℕ
  pub workflow_name : String
  pub vector_db_id : Option String
  pub status : RunStatus
  pub current_step : Option String
  pub user_id : Option String
  pub telegram_chat_id : Option ℕ
  pub input : String
  pub artifacts : Option Fields
  pub error : Option String
  pub public_demo : Bool
  pub public_token : Option String
  pub created_at : ℕ
  pub updated_at : Option ℕ

abbrev pub has_id : ℕ → Run → Bool
has_id i r = r.id == i

-- `artifacts_dict`
abbrev pub artifacts_dict : Run → Fields
artifacts_dict r = elim r.artifacts [ none ↦ Fields.end | some fs ↦ fs ]

-- What `create` is given, apart from the clock and the new id. `int` reads a chat id that was
-- given as a text; where it cannot, the chat id is dropped.
pub record NewRun : Type 0 where
  pub id : ℕ
  pub workflow_name : String
  pub input : String
  pub status : RunStatus
  pub current_step : Option String
  pub vector_db_id : Option String
  pub user_id : Option String
  pub telegram_chat_id : Option String
  pub public_demo : Bool
  pub public_token : Option String

unfoldable pub create : (String → Option ℕ) → NewRun → ℕ → List Run → Run × List Run
create int n now runs =
    let r : Run = record {
      id = n.id;
      workflow_name = n.workflow_name;
      vector_db_id = n.vector_db_id;
      status = n.status;
      current_step = n.current_step;
      user_id = n.user_id;
      telegram_chat_id = elim n.telegram_chat_id [ none ↦ none | some s ↦ int s ];
      input = n.input;
      artifacts = some Fields.end;
      error = none;
      public_demo = n.public_demo;
      public_token = n.public_token;
      created_at = now;
      updated_at = some now;
    } in
    (r, runs ++ r ∷ [])

-- `get`
unfoldable pub get : ℕ → List Run → Option Run
unfolding first_where
get i runs = first_where (has_id i) runs

-- One keyword argument of `update`, of those that the program passes; `unknown` is a key that a run
-- has no attribute of.
pub data Change : Type 0 where
  status_is : RunStatus → Change
  status_text : String → Change
  step_is : Option String → Change
  error_is : Option String → Change
  artifacts_are : Fields → Change
  vector_db_is : Option String → Change
  unknown : String → Change

-- One turn of the loop over the keyword arguments; `none` is `ValueError("Invalid run status")`.
unfoldable pub change : Change → Run → Option Run
change (status_is s) r = some (record r { status = s })
change (status_text t) r = elim (normalize_status t) [
  | none ↦ none
  | some s ↦ some (record r { status = s })
]
change (step_is s) r = some (record r { current_step = s })
change (error_is e) r = some (record r { error = e })
change (artifacts_are fs) r = some (record r { artifacts = some fs })
change (vector_db_is v) r = some (record r { vector_db_id = v })
change (unknown k) r = some r

-- The loop: what was set before an invalid status stays set. The flag says that all were set.
unfoldable pub change_all : List Change → Run → Run × Bool
unfolding change
change_all [] r = (r, true)
change_all (c ∷ cs) r = elim (change c r) [ none ↦ (r, false) | some r' ↦ change_all cs r' ]

-- What `update` comes back with.
pub data Updated : Type 0 where
  missing : Updated
  invalid_status : Updated
  updated : Run → Updated

-- `updated_at` is written by each flush that writes the row; the model takes it that every flush does.
unfoldable pub stamp : ℕ → Run → Run
stamp now r = record r { updated_at = some now }

-- `update`; on an invalid status the object in the session keeps the attributes set so far, which
-- the next flush writes.
unfoldable pub update : ℕ → List Change → ℕ → List Run → Updated × List Run
unfolding get change_all stamp update_where
update i cs now runs = elim (get i runs) [
  | none ↦ (missing, runs)
  | some r ↦
      let runs' = update_where (has_id i) (λ r. stamp now (change_all cs r).0) runs in
      (
        if (change_all cs r).1 then updated (stamp now (change_all cs r).0) else invalid_status,
        runs',
      )
]

-- `add_artifact`
unfoldable pub with_artifact : String → Json → Run → Run
with_artifact key value r = record r { artifacts = some (Json.put key value (artifacts_dict r)) }

unfoldable pub add_artifact : ℕ → String → Json → ℕ → List Run → Option Run × List Run
unfolding get stamp update_where with_artifact
add_artifact i key value now runs = elim (get i runs) [
  | none ↦ (none, runs)
  | some r ↦ (
    some (stamp now (with_artifact key value r)),
    update_where (has_id i) (λ r. stamp now (with_artifact key value r)) runs,
  )
]

-- SQL: a comparison with NULL is not true.
abbrev pub updated_before : ℕ → Run → Bool
updated_before older_than r = elim r.updated_at [ none ↦ false | some t ↦ ltb t older_than ]

-- `find_by_status_and_age`: the longest untouched first.
abbrev pub is_aged : RunStatus → ℕ → Run → Bool
is_aged status older_than r = str_eq (value r.status) (value status) && updated_before older_than r

unfoldable pub find_by_status_and_age : RunStatus → ℕ → List Run → List Run
unfolding select sort_by
find_by_status_and_age status older_than runs =
    sort_by (λ a b. ltb (or_else a.updated_at 0) (or_else b.updated_at 0))
      (select (is_aged status older_than) runs)
