-- ===== src/Program/Observability/Ending.antt =====
-- What the observability leaves to be shut down
-- (backend/internal/bootstrap/observability_boostrap.go).
use vocy.Prelude.{
  ◌≡◌, sym, true, false, Bool, Bool-cases, Option, none, some, Option-cases, List, [], ◌∷◌, ◌++◌,
  inl, inr, arith,
}
use vocy.Program.Bootstrap.{ShutdownFn}
use vocy.Program.Observability.{
  Provider, unset, noop, exporting, Telemetry, Exporters, Observed, TelemetryError, shut_tracer,
  shut_meter, observed, init_otel_logging, init_otel_tracing, init_otel_metrics, after_tracing,
  after_logging, init_observability,
}

-- The shutdown function of a provider that exports.
abbrev pub fn_of : Provider → ShutdownFn → List ShutdownFn
fn_of exporting fn = fn ∷ []
fn_of unset fn = []
fn_of noop fn = []

module _ {E : Type 0} (x : Exporters E) where
  observed-injective :
      (fns fns' : List ShutdownFn)
      → ◌≡◌ {A = Observed E} (observed fns) (observed fns')
      → fns ≡ fns'
  observed-injective fns fns' h = cc

  after_tracing_observed :
      (metrics traces : Bool) (t : Telemetry) (fns : List ShutdownFn)
      → (after_tracing x metrics (init_otel_tracing x traces t)).1 ≡ observed fns
      → fns
        ≡ fn_of
            (after_tracing x metrics (init_otel_tracing x traces t)).0.tracer_provider
            shut_tracer
          ++ fn_of
              (after_tracing x metrics (init_otel_tracing x traces t)).0.meter_provider
              shut_meter
  unfolding init_otel_tracing init_otel_metrics
  after_tracing_observed false false t fns h = cc
  after_tracing_observed true false t fns h = elim (Option-cases x.metric_reader) [
    | inl fine ↦
        rw (init_otel_metrics, fine)
          (sym (observed-injective _ _ (rw (init_otel_metrics, fine) at h)))
    | inr (e, failed) ↦ absurd (ground (arith, rw (init_otel_metrics, failed) at h))
  ]
  after_tracing_observed false true t fns h = elim (Option-cases x.span_exporter) [
    | inl fine ↦
        rw (init_otel_tracing, fine)
          (sym (observed-injective _ _ (rw (init_otel_tracing, fine) at h)))
    | inr (e, failed) ↦ absurd (ground (arith, rw (init_otel_tracing, failed) at h))
  ]
  after_tracing_observed true true t fns h = elim (Option-cases x.span_exporter) [
    | inl fine ↦ elim (Option-cases x.metric_reader) [
      | inl read ↦
          rw (init_otel_tracing, fine, init_otel_metrics, read)
            (sym
              (observed-injective _ _ (rw (init_otel_tracing, fine, init_otel_metrics, read) at h)))
      | inr (e, failed) ↦
          absurd (ground (arith, rw (init_otel_tracing, fine, init_otel_metrics, failed) at h))
    ]
    | inr (e, failed) ↦ absurd (ground (arith, rw (init_otel_tracing, failed) at h))
  ]

  after_logging_observed :
      (metrics traces : Bool) (r : Telemetry × Option (TelemetryError E)) (fns : List ShutdownFn)
      → (after_logging x metrics traces r).1 ≡ observed fns
      → fns
        ≡ fn_of (after_logging x metrics traces r).0.tracer_provider shut_tracer
          ++ fn_of (after_logging x metrics traces r).0.meter_provider shut_meter
  after_logging_observed metrics traces (t, none) fns h =
      after_tracing_observed metrics traces t fns h
  after_logging_observed metrics traces (t, some e) fns h = absurd (ground arith)

  started :
      (metrics traces : Bool) (t : Telemetry)
      → x.default_resource ≡ none
      → x.is_transport ≡ true
      → init_observability x metrics traces t
        ≡ after_logging x metrics traces (init_otel_logging x t)
  unfolding init_observability
  started metrics traces t fine transport = simp (init_observability, fine, transport)

  -- Where `initObservability` succeeds, its shutdown functions are those of the tracer provider and
  -- the meter provider that export, in this order: none is forgotten, and none is there for a provider
  -- that does nothing.
  pub init_observability_observed :
      (metrics traces : Bool) (t : Telemetry) (fns : List ShutdownFn)
      → (init_observability x metrics traces t).1 ≡ observed fns
      → fns
        ≡ fn_of (init_observability x metrics traces t).0.tracer_provider shut_tracer
          ++ fn_of (init_observability x metrics traces t).0.meter_provider shut_meter
  unfolding init_observability
  init_observability_observed metrics traces t fns h = elim (Option-cases x.default_resource) [
    | inr (e, failed) ↦ absurd (ground (arith, rw (init_observability, failed) at h))
    | inl fine ↦ elim (Bool-cases x.is_transport) [
      | inr other ↦ absurd (ground (arith, rw (init_observability, fine, other) at h))
      | inl transport ↦ rw (started metrics traces t fine transport) (
          after_logging_observed metrics traces (init_otel_logging x t) fns
            (rw (started metrics traces t fine transport) at h))
    ]
  ]
