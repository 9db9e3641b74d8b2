-- ===== src/Tests.antt =====
-- Runs of the model on small inputs, and each theorem at an input that meets its hypotheses.
mod Samples
mod Orders
mod Engines
mod Hooks
mod Runners
mod Tools
mod Telemetry
mod Modes
mod Drafts
mod RateLimits
mod Auth
mod Workflows
mod Settings
mod Templates
mod Frontend
