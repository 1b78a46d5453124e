-- ===== src/Examples.antt =====
-- The theorems at concrete inputs, in thousandths for `float`.
mod Samples
mod Updates
mod Powers
mod Limits
mod Scaling
mod Radio
mod Frames
mod Serial
mod Loads
mod Battery
