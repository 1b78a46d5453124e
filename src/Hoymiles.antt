-- ===== src/Hoymiles.antt =====
-- The inverter driver (lib/Hoymiles): the objects that the power limiter talks to, and the radio.
pub mod Device
pub mod Command
pub mod Crc
pub mod Fragments
pub mod Inverter
pub mod Queue
pub mod History
pub mod Radio
pub mod Handed
pub mod Cycle
pub mod Receive
pub mod MultiData
pub mod Control
pub mod RunData
