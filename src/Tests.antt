-- ===== src/Tests.antt =====
-- The theorems at concrete inputs, and tests of the definitions.
mod Output
mod Process
mod Approval
mod Continuity
mod Oauth
mod Journal
mod Files
mod Telemetry
mod Artifacts
