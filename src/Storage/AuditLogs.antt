-- ===== src/Storage/AuditLogs.antt =====
-- The table of audit logs and `AuditLogRepository` of src/myloware/storage/{models,repositories}.py.
use mylo_ware.Common.{
  ℕ, String, Bool, false, Option, none, some, List, [], ◌∷◌, ◌++◌, ltb, ◌==◌, str_eq, select,
  sort_by, take,
}
use mylo_ware.Common.Json.{Fields}

pub record AuditLog : Type 0 where
  pub id : ℕ
  pub user_id : Option String
  pub run_id : Option ℕ
  pub action : String
  pub duration_ms : Option ℕ
  pub outcome : Option String
  pub metadata : Fields
  pub created_at : ℕ

abbrev or_empty : Option Fields → Fields
or_empty none = Fields.end
or_empty (some fs) = fs

unfoldable pub create :
    ℕ
    → String
    → Option String
    → Option ℕ
    → Option ℕ
    → Option String
    → Option Fields
    → ℕ
    → List AuditLog
    → AuditLog × List AuditLog
create id action user_id run_id duration_ms outcome metadata now rows =
    let row : AuditLog = record {
      id = id;
      user_id = user_id;
      run_id = run_id;
      action = action;
      duration_ms = duration_ms;
      outcome = outcome;
      metadata = or_empty metadata;
      created_at = now;
    } in
    (row, rows ++ row ∷ [])

-- SQL: a comparison with NULL is not true.
abbrev pub is_of_run : ℕ → AuditLog → Bool
is_of_run i a = elim a.run_id [ none ↦ false | some r ↦ r == i ]

abbrev pub is_of_user : String → AuditLog → Bool
is_of_user u a = elim a.user_id [ none ↦ false | some v ↦ str_eq v u ]

-- The oldest first.
unfoldable pub get_by_run_id : ℕ → List AuditLog → List AuditLog
unfolding select sort_by
get_by_run_id i rows = sort_by (λ a b. ltb a.created_at b.created_at) (select (is_of_run i) rows)

-- The newest first, at most `limit`.
unfoldable pub get_by_user_id : String → ℕ → List AuditLog → List AuditLog
unfolding select sort_by
get_by_user_id user limit rows =
    take limit (sort_by (λ a b. ltb b.created_at a.created_at) (select (is_of_user user) rows))
