-- ===== src/Storage/Runs/Queries.antt =====
-- The other queries of `RunRepository` in src/myloware/storage/repositories.py.
use mylo_ware.Common.{
  ℕ, zero, suc, String, Bool, true, false, ◌&&◌, Option, none, some, List, [], ◌∷◌, ltb, leb,
  str_eq, if◌then◌else◌, select, sort_by, take, length,
}
use mylo_ware.Common.Rows.{first_where}
use mylo_ware.Storage.Runs.{Run}
use mylo_ware.Storage.Runs.Status.{RunStatus, value}

-- `get_by_public_token_async`
unfoldable pub get_by_public_token : String → List Run → Option Run
unfolding first_where
get_by_public_token token runs =
    first_where (λ r. elim r.public_token [ none ↦ false | some t ↦ str_eq t token ]) runs

-- `count_runs_since_async`
unfoldable pub count_runs_since : ℕ → List Run → ℕ
unfolding select
count_runs_since since runs = length (select (λ r. leb since r.created_at) runs)

-- OFFSET
unfoldable pub skip_rows : ℕ → List Run → List Run
skip_rows zero rows = rows
skip_rows (suc n) [] = []
skip_rows (suc n) (r ∷ rows) = skip_rows n rows

abbrev pub has_status : Option RunStatus → Run → Bool
has_status none r = true
has_status (some st) r = str_eq (value r.status) (value st)

-- An empty user id does not filter.
abbrev pub has_user : Option String → Run → Bool
has_user none r = true
has_user (some u) r =
    if str_eq u "" then true else elim r.user_id [ none ↦ false | some v ↦ str_eq v u ]

-- `list`: the newest first.
unfoldable pub list : ℕ → ℕ → Option RunStatus → Option String → List Run → List Run
unfolding select sort_by skip_rows
list limit offset status user runs = take limit (
    skip_rows offset (
      sort_by (λ a b. ltb b.created_at a.created_at)
        (select (λ r. has_status status r && has_user user r) runs)))
