-- ===== src/Dpl.antt =====
-- The dynamic power limiter's view of one inverter (src/PowerLimiterInverter.cpp and its
-- subclasses).
pub mod Clock
pub mod State
pub mod Readings
pub mod Targets
pub mod PowerState
pub mod Update
pub mod Battery
pub mod Overscaling
pub mod Solar
pub mod SmartBuffer
pub mod Limits
pub mod Stats
pub mod Restore
pub mod Control
pub mod Pending
pub mod Trace
