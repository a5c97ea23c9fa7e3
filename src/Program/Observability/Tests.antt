-- ===== src/Program/Observability/Tests.antt =====
-- Tests and witnesses on the observability
-- (backend/internal/bootstrap/observability_boostrap.go).
use vocy.Prelude.{◌≡◌, refl, true, false, none, some, [], ◌∷◌, ◌++◌, codes}
use vocy.Env.Schema.{Text}
use vocy.Program.Observability.{
  unset, exporting, Telemetry, Exporters, no_metric_reader, shut_tracer, shut_meter, observed,
  unobserved, init_observability,
}
use vocy.Program.Observability.Ending.{fn_of, init_observability_observed}

abbrev at_start : Telemetry
at_start = record {
  logs_exporter = [];
  logger_provider = unset;
  tracer_provider = unset;
  meter_provider = unset;
  has_propagator = false;
  is_client_traced = false;
}

abbrev exporters : Exporters Text
exporters = record {
  default_resource = none;
  log_exporter = λ name. none;
  span_exporter = none;
  metric_reader = none;
  is_transport = true;
}

abbrev no_reader : Exporters Text
no_reader = record exporters { metric_reader = some (codes "no reader") }

both_observed :
    (init_observability exporters true true at_start).1 ≡ observed (shut_tracer ∷ shut_meter ∷ [])
unfolding init_observability
both_observed = refl

init_observability_observed_example :
    shut_tracer ∷ shut_meter ∷ []
    ≡ fn_of (init_observability exporters true true at_start).0.tracer_provider shut_tracer
      ++ fn_of (init_observability exporters true true at_start).0.meter_provider shut_meter
init_observability_observed_example =
    init_observability_observed exporters true true at_start (shut_tracer ∷ shut_meter ∷ [])
      both_observed

-- After an error of the metrics the tracer provider exports, and nothing is there to shut it down.
leaves_tracer :
    ((init_observability no_reader true true at_start).0.tracer_provider ≡ exporting)
    × ((init_observability no_reader true true at_start).1
        ≡ unobserved (no_metric_reader (codes "no reader")))
unfolding init_observability
leaves_tracer = (refl, refl)
