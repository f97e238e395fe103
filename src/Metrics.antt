-- ===== src/Metrics.antt =====
-- internal/metrics/metrics.go: the gauge that says that the operator is up.
use automatic_db_upgrades.Common.{ℕ, String}

-- prometheus.Gauge
pub record Gauge : Type 0 where
  pub name : String
  pub help : String
  pub value : ℕ

-- OperatorUp; a new gauge is 0.
abbrev pub operator_up_gauge : Gauge
operator_up_gauge = record {
  name = "dbupgrade_operator_up";
  help = "Indicates if the DBUpgrade operator is running (always 1 when process is alive)";
  value = 0;
}

-- SetOperatorUp
unfoldable pub set_operator_up : Gauge → Gauge
set_operator_up gauge = record gauge { value = 1 }
