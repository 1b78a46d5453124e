-- ===== src/Timeout.antt =====
-- lib/TimeoutHelper/src/TimeoutHelper.cpp. The millisecond counter is an argument.
use flux_dtu.Base.{ℕ, Bool, ltb, add32, sub32}

pub record TimeoutHelper : Type 0 where
  pub timeout : ℕ  -- uint32
  pub start_millis : ℕ  -- uint32

unfoldable pub set : (ms now : ℕ) → TimeoutHelper → TimeoutHelper
set ms now t = record { timeout = ms; start_millis = now }

unfoldable pub extend : (ms : ℕ) → TimeoutHelper → TimeoutHelper
extend ms t = record t { timeout = add32 t.timeout ms }

unfoldable pub reset : (now : ℕ) → TimeoutHelper → TimeoutHelper
reset now t = record t { start_millis = now }

unfoldable pub occured : (now : ℕ) → TimeoutHelper → Bool
occured now t = ltb t.timeout (sub32 now t.start_millis)
