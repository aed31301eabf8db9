-- ===== src/Manager/Metrics.antt =====
-- internal/controller/metrics.go: the two gauges that the reconciler sets.
use kronos_core.Base.{List, [], ◌∷◌, String}

-- `prometheus.NewGaugeVec`: the name and the help of a gauge, and the names of its labels.
pub record Gauge : Type 0 where
  pub name : String
  pub help : String
  pub labels : List String

pub record Metrics : Type 0 where
  pub schedule_info : Gauge
  pub in_depth_schedule_info : Gauge

unfoldable pub register_metrics : Metrics
register_metrics = record {
  schedule_info = record {
    name = "schedule_info";
    help = "Current schedule information";
    labels = "name" ∷ "namespace" ∷ [];
  };
  in_depth_schedule_info = record {
    name = "indepth_schedule_info";
    help = "Current schedule information";
    labels =
        "name" ∷ "namespace" ∷ "status" ∷ "reason" ∷ "handled_resources" ∷ "next_operation" ∷ [];
  };
}

-- What `MustRegister` registers, in one call.
unfoldable pub collectors : Metrics → List Gauge
collectors additional_metrics =
    additional_metrics.schedule_info ∷ additional_metrics.in_depth_schedule_info ∷ []
