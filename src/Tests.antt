-- ===== src/Tests.antt =====
-- Runs of the handlers on a small database, and the theorems at those runs.
mod Sample
mod Sessions
mod Administration
mod Soc
mod Devices
mod Policies
mod Scoring
mod Enforcement
mod Gate
mod History
mod Windows
mod MlService
mod Registration
