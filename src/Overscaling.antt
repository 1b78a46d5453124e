-- ===== src/Overscaling.antt =====
-- src/OverscalingCalculator.cpp.
pub mod Calculator
