-- ===== src/Tests/StuckRuns.antt =====
-- Stuck runs of src/myloware/workflows/cleanup.py.
use mylo_ware.Common.{ℕ, String, ◌≡◌, refl, true, false, some, List, [], ◌∷◌}
use mylo_ware.Common.Rows.{update_where}
use mylo_ware.Storage.Runs.{Run}
use mylo_ware.Storage.Runs.Status.{awaiting_render}
use mylo_ware.Workflow.Cleanup.{timeout_stuck_runs, cutoff}
use mylo_ware.Workflow.Cleanup.Rows.{DistinctIds, is_stuck, timed_out}
use mylo_ware.Workflow.Cleanup.Laws.{timeout_stuck_runs_lem}
use mylo_ware.Tests.RunTable.{waiting_run, other_run}

-- It waits for a render; the other two runs do not.
abbrev rendering_run : Run
rendering_run = record waiting_run { id = 9; status = awaiting_render; updated_at = some 60000000 }

abbrev three_runs : List Run
three_runs = waiting_run ∷ other_run ∷ rendering_run ∷ []

three_runs-DistinctIds : DistinctIds three_runs
three_runs-DistinctIds = ((refl, (refl, tt)), ((refl, tt), (tt, tt)))

abbrev two_minutes : ℕ → String
two_minutes n = "2"

timeout_stuck_runs_lem_example :
    ((timeout_stuck_runs two_minutes 1 false 180000000 180000001 three_runs).1
      ≡ update_where (is_stuck (cutoff 1 180000000)) (timed_out two_minutes 180000001) three_runs)
    × ((timeout_stuck_runs two_minutes 1 true 180000000 180000001 three_runs).1 ≡ three_runs)
    × ((timeout_stuck_runs two_minutes 1 true 180000000 180000001 three_runs).0
        ≡ (timeout_stuck_runs two_minutes 1 false 180000000 180000001 three_runs).0)
timeout_stuck_runs_lem_example =
    timeout_stuck_runs_lem two_minutes 1 180000000 180000001 three_runs three_runs-DistinctIds

stuck_ids : (timeout_stuck_runs two_minutes 1 false 180000000 180000001 three_runs).0 ≡ 9 ∷ []
unfolding timeout_stuck_runs
stuck_ids = refl
