-- ===== src/Stability.antt =====
-- scripts/lib/post-deploy-measurement.mjs and scripts/lib/stability-monitor.mjs: how a deployed
-- candidate is measured against its setpoint, and when the routes are frozen.
pub mod Numbers
mod Measurement
mod Checked
mod Remeasure
mod Monitor
mod Review
mod Streak
mod SafeMode
mod Tests
