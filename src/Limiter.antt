-- ===== src/Limiter.antt =====
-- The dynamic power limiter that governs the inverters (src/PowerLimiter.cpp).
pub mod State
pub mod Battery
pub mod Share
pub mod Current
pub mod Bus
pub mod Restart
