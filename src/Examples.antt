-- ===== src/Examples.antt =====
-- The theorems at concrete inputs, and tests.
mod AdmissionExamples
mod RuntimeExamples
mod ProxyExamples
mod RepetitionExamples
mod JobsExamples
mod ResourcesExamples
mod AdaptiveExamples
mod SessionsExamples
mod RoutingExamples
mod TelemetryExamples
mod ScopesExamples
mod ContextExamples
mod ReadinessExamples
mod ResidencyExamples
mod FootprintExamples
