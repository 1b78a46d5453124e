-- ===== src/VeDirect/Bounds.antt =====
-- The buffers of the frame handler.
use flux_dtu.Base.{◌^◌, ◌≤◌, ◌<◌, length}
use flux_dtu.VeDirect.{FrameHandler, ve_max_value_len, ve_max_hex_len}

-- What is written stays inside the buffers, and the checksum is a byte.
pub record IsBounded {T : Type 0} (h : FrameHandler T) : Type 0 where
  pub name_in : length h.name ≤ ve_max_value_len
  pub value_in : length h.value ≤ ve_max_value_len
  pub hex_in : length h.hex_buffer < ve_max_hex_len
  pub checksum_in : h.checksum < 2 ^ 8
