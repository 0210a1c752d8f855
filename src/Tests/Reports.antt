-- ===== src/Tests/Reports.antt =====
-- The reports on concrete tables.
use node2x6x2b.Base.{All, []}
use node2x6x2b.Samples.Runs.{recorded}
use node2x6x2b.Report.{check_intersection}
use node2x6x2b.Report.Percent.{IsFine, check_intersection-IsFine}
use node2x6x2b.Tests.Scene.{two_events, two_run}

check_intersection-IsFine_example : All IsFine (check_intersection two_run.0)
check_intersection-IsFine_example =
    check_intersection-IsFine two_run.0 (recorded two_events []) two_run.2
