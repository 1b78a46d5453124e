-- ===== src/Overscaling/Calculator/Search.antt =====
-- The binary search of `calculatePerChannelOverscaledLimit`.
use flux_dtu.Base.{
  ℕ, zero, suc, ◌+◌, ◌-◌, ◌*◌, ◌/◌, ◌^◌, ◌≤◌, ◌<◌, ◌≡◌, ◌⊎◌, inl, refl, ap, min, max, Bool, true,
  false, List, arith, length, u16,
}
use flux_dtu.Float.{Float}
use flux_dtu.Overscaling.Calculator.{
  lowest_enough, search_fuel, yields, has_limit_bound_channel,
  calculate_per_channel_overscaled_limit, calculate_per_channel_limit_output_float,
}

two_pow : (n : ℕ) → 2 ^ suc n ≡ 2 * 2 ^ n
two_pow n = omega arith

suc_pred : (m : ℕ) → m + 1 - 1 ≡ m
suc_pred m = omega arith

-- The loop ends at a limit of the range that is enough, or at its upper end; the limit below it is
-- not enough, or it is the lower end. The range fits 16 bits, and each round of fuel halves it.
lowest_enough_lem :
    (fuel : ℕ) (enough : ℕ → Bool) (low high : ℕ)
    → low ≤ high
    → high < 65_536
    → high < low + 2 ^ fuel
    → let r = lowest_enough fuel enough low high in
      (low ≤ r)
      × (r ≤ high)
      × ((r ≡ high) ⊎ (enough r ≡ true))
      × ((r ≡ low) ⊎ (enough (r - 1) ≡ false))
unfolding lowest_enough
lowest_enough_lem zero enough low high h1 h2 h3 = (omega arith, h1, inl (omega arith), inl refl)
lowest_enough_lem (suc fuel) enough low high h1 h2 h3 =
    let mid = u16 (low + (high - low) / 2) in
    let width : 2 ^ suc fuel ≡ 2 * 2 ^ fuel = two_pow fuel in
    ground (
      arith,
      width,
      lowest_enough_lem fuel enough low mid,
      lowest_enough_lem fuel enough (u16 (mid + 1)) high,
      ap enough (suc_pred mid),
    )

module _ {F : Type 0} ⦃fl : Float F⦄ where
  -- For two channels or more and an expected output below the inverter's maximum, which fits 16 bits:
  -- where some channel is bound by the limit, a limit equal to the expected output is not enough and
  -- the maximum is not known to be too little, the calculated limit lies above the expected output
  -- and at most at the maximum; it yields the expected output or is the maximum; and one watt less
  -- does not yield it.
  pub calculate_per_channel_overscaled_limit_least :
      (current expected : ℕ) (channels : List F) (max_power : ℕ) (threshold : F)
      → 1 < length channels
      → expected < max_power
      → max_power < 65_536
      → has_limit_bound_channel current channels threshold ≡ true
      → yields current expected channels threshold expected ≡ false
      → fl.lt
          (calculate_per_channel_limit_output_float current max_power channels threshold)
          (fl.of_nat expected)
        ≡ false
      → let r =
          calculate_per_channel_overscaled_limit current expected channels max_power threshold in
        (expected < r)
        × (r ≤ max_power)
        × ((r ≡ max_power) ⊎ (yields current expected channels threshold r ≡ true))
        × (yields current expected channels threshold (r - 1) ≡ false)
  unfolding calculate_per_channel_overscaled_limit
  calculate_per_channel_overscaled_limit_least current expected channels max_power threshold h1 h2
        h3 b y t =
      ground (
        arith,
        lowest_enough_lem search_fuel (yields current expected channels threshold) expected
            max_power,
      )

  -- For an inverter's maximum that fits 16 bits, the calculated limit lies between the expected
  -- output and the maximum, whichever of the two is the larger.
  pub calculate_per_channel_overscaled_limit_range :
      (current expected : ℕ) (channels : List F) (max_power : ℕ) (threshold : F)
      → max_power < 65_536
      → let r =
          calculate_per_channel_overscaled_limit current expected channels max_power threshold in
        (min expected max_power ≤ r) × (r ≤ max expected max_power)
  unfolding calculate_per_channel_overscaled_limit
  calculate_per_channel_overscaled_limit_range current expected channels max_power threshold h =
      ground (
        arith,
        lowest_enough_lem search_fuel (yields current expected channels threshold) expected
            max_power,
      )
