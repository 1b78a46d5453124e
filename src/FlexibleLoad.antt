-- ===== src/FlexibleLoad.antt =====
-- src/FlexibleLoad.cpp: loads that are switched on by MQTT while there is power to spare.
pub mod State
pub mod Power
pub mod Commands
pub mod Judgement
pub mod Step
pub mod Loop
pub mod Command
pub mod Rounds
pub mod Agreement
pub mod States
pub mod Transitions
pub mod Slot
pub mod Times
pub mod Restore
