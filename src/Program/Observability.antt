-- ===== src/Program/Observability.antt =====
-- `initObservability` (backend/internal/bootstrap/observability_boostrap.go). OpenTelemetry is what its
-- globals hold; the exporters' errors are arguments.
pub mod Ending
mod Tests
use vocy.Prelude.{
  Bool, true, false, Option, none, some, List, [], ◌∷◌, ◌++◌, Result, ok, err, codes, if◌then◌else◌,
}
use vocy.Env.Schema.{Text, is_empty}
use vocy.Program.Bootstrap.{ShutdownFn, observability}

-- A global provider: none was set, one that does nothing, or one with an exporter.
pub data Provider : Type 0 where
  unset noop exporting : Provider

-- What is set for the process: `OTEL_LOGS_EXPORTER`, the providers, the propagator, and whether the
-- transport of the HTTP client is traced.
pub record Telemetry : Type 0 where
  pub logs_exporter : Text
  pub logger_provider : Provider
  pub tracer_provider : Provider
  pub meter_provider : Provider
  pub has_propagator : Bool
  pub is_client_traced : Bool

-- `defaultResource`, the exporters of autoexport, the one for logs by the variable, and whether the
-- default transport is of the type that it should be.
pub record Exporters (E : Type 0) : Type 0 where
  pub default_resource : Option E
  pub log_exporter : Text → Option E
  pub span_exporter : Option E
  pub metric_reader : Option E
  pub is_transport : Bool

pub data TelemetryError (E : Type 0) : Type 0 where
  no_resource no_log_exporter no_span_exporter no_metric_reader : E → TelemetryError E

-- The shutdown functions of the tracing and of the metrics.
abbrev pub shut_tracer : ShutdownFn
shut_tracer = observability 0

abbrev pub shut_meter : ShutdownFn
shut_meter = observability 1

-- `initObservability` ends with its shutdown functions or an error, or it panics.
pub data Observed (E : Type 0) : Type 0 where
  observed : List ShutdownFn → Observed E
  unobserved : TelemetryError E → Observed E
  panics : Observed E

abbrev pub with_logs_exporter : Telemetry → Telemetry
with_logs_exporter t =
    if is_empty t.logs_exporter then record t { logs_exporter = codes "none" } else t

module _ {E : Type 0} (x : Exporters E) where
  unfoldable pub init_otel_logging : Telemetry → Telemetry × Option (TelemetryError E)
  init_otel_logging t =
      let t' = with_logs_exporter t in
      elim (x.log_exporter t'.logs_exporter) [
        | some e ↦ (t', some (no_log_exporter e))
        | none ↦ (record t' { logger_provider = exporting }, none)
      ]

  unfoldable pub init_otel_tracing :
      Bool → Telemetry → Telemetry × Result (TelemetryError E) (Option ShutdownFn)
  init_otel_tracing false t = (record t { tracer_provider = noop }, ok none)
  init_otel_tracing true t = elim x.span_exporter [
    | some e ↦ (t, err (no_span_exporter e))
    | none ↦ (
      record t { tracer_provider = exporting; has_propagator = true; is_client_traced = true },
      ok (some shut_tracer),
    )
  ]

  unfoldable pub init_otel_metrics :
      Bool → Telemetry → Telemetry × Result (TelemetryError E) (Option ShutdownFn)
  init_otel_metrics false t = (record t { meter_provider = noop }, ok none)
  init_otel_metrics true t = elim x.metric_reader [
    | some e ↦ (t, err (no_metric_reader e))
    | none ↦ (record t { meter_provider = exporting }, ok (some shut_meter))
  ]

  abbrev pub append_fn : List ShutdownFn → Option ShutdownFn → List ShutdownFn
  append_fn fns none = fns
  append_fn fns (some fn) = fns ++ fn ∷ []

  abbrev pub after_metrics :
      List ShutdownFn
      → Telemetry × Result (TelemetryError E) (Option ShutdownFn)
      → Telemetry × Observed E
  after_metrics fns (t, err e) = (t, unobserved e)
  after_metrics fns (t, ok fn) = (t, observed (append_fn fns fn))

  abbrev pub after_tracing :
      Bool → Telemetry × Result (TelemetryError E) (Option ShutdownFn) → Telemetry × Observed E
  after_tracing metrics (t, err e) = (t, unobserved e)
  after_tracing metrics (t, ok fn) = after_metrics (append_fn [] fn) (init_otel_metrics metrics t)

  abbrev pub after_logging :
      Bool → Bool → Telemetry × Option (TelemetryError E) → Telemetry × Observed E
  after_logging metrics traces (t, some e) = (t, unobserved e)
  after_logging metrics traces (t, none) = after_tracing metrics (init_otel_tracing traces t)

  unfoldable pub init_observability : Bool → Bool → Telemetry → Telemetry × Observed E
  unfolding init_otel_logging init_otel_tracing init_otel_metrics
  init_observability metrics traces t = elim x.default_resource [
    | some e ↦ (t, unobserved (no_resource e))
    | none ↦
        if x.is_transport then after_logging metrics traces (init_otel_logging t) else (t, panics)
  ]
