-- ===== src/Dpl/Clock.antt =====
-- `millisAtOrAfter` of src/PowerLimiterInverter.cpp.
pub mod Order
use flux_dtu.Base.{ℕ, Bool, ltb, sub32}

-- Half the range of the 32-bit millisecond counter.
abbrev pub half_of_all_millis : ℕ
half_of_all_millis = 2_147_483_647

unfoldable pub millis_at_or_after : (timestamp reference : ℕ) → Bool
millis_at_or_after t r = ltb (sub32 t r) half_of_all_millis
