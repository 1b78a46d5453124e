-- ===== src/Overscaling/Calculator.antt =====
-- src/OverscalingCalculator.cpp: the power limit that makes up for shaded inputs. `MpptData` and
-- `ChannelData` hold one number, the AC power, so a vector of them is a list of floats.
pub mod Shading
pub mod Search
use flux_dtu.Base.{
  ℕ, zero, suc, ◌+◌, ◌-◌, ◌*◌, ◌/◌, ◌%◌, Bool, true, false, ◌&&◌, ◌||◌, not, List, [], ◌∷◌, min,
  ltb, leb, ◌==◌, if◌then◌else◌, length, u16,
}
use flux_dtu.Float.{Float, float_min, clamp}

-- The `while (low < high)` loop, on fuel; `enough` is its test of a limit.
unfoldable pub lowest_enough : ℕ → (ℕ → Bool) → (low high : ℕ) → ℕ
lowest_enough zero enough low high = low
lowest_enough (suc fuel) enough low high =
    let mid = u16 (low + (high - low) / 2) in
    let below = lowest_enough fuel enough low mid in
    let above = lowest_enough fuel enough (u16 (mid + 1)) high in
    if ltb low high then (if enough mid then below else above) else low

-- Each round halves a range below 2 ^ 16.
abbrev pub search_fuel : ℕ
search_fuel = 16

module _ {F : Type 0} ⦃fl : Float F⦄ where
  add_powers : F → List F → F
  add_powers sum [] = sum
  add_powers sum (p ∷ ps) = add_powers (fl.add sum p) ps

  unfoldable pub sum_channel_power : List F → F
  unfolding add_powers
  sum_channel_power channels = add_powers (fl.of_nat 0) channels

  -- one flag for each channel
  bound_flags : F → List F → List Bool
  bound_flags required [] = []
  bound_flags required (p ∷ ps) = fl.le required p ∷ bound_flags required ps

  no_flags : List F → List Bool
  no_flags [] = []
  no_flags (p ∷ ps) = false ∷ no_flags ps

  unfoldable pub collect_limit_bound_channels :
      (current_limit_watts : ℕ) → List F → (limit_binding_threshold : F) → List Bool
  unfolding bound_flags no_flags
  collect_limit_bound_channels current channels threshold =
      if length channels == 0
      then []
      else if current == 0
      then no_flags channels
      else bound_flags
          (fl.mul (fl.div (fl.of_nat current) (fl.of_nat (length channels)))
            (clamp threshold (fl.of_nat 0) (fl.of_nat 1)))
          channels

  -- the sum over the channels: a bound one follows the limit, another is at most its own power
  add_outputs : F → F → List Bool → List F → F
  add_outputs per_channel output (b ∷ bs) (p ∷ ps) =
      add_outputs per_channel (fl.add output (if b then per_channel else float_min p per_channel))
        bs ps
  add_outputs per_channel output _ _ = output

  unfoldable pub calculate_per_channel_limit_output_float :
      (current_limit_watts output_limit_watts : ℕ) → List F → (limit_binding_threshold : F) → F
  unfolding add_outputs
  calculate_per_channel_limit_output_float current output channels threshold =
      let bound = collect_limit_bound_channels current channels threshold in
      let per_channel = fl.div (fl.of_nat output) (fl.of_nat (length channels)) in
      if length channels == 0
      then fl.of_nat 0
      else if not (length bound == length channels)
      then sum_channel_power channels
      else clamp (add_outputs per_channel (fl.of_nat 0) bound channels) (fl.of_nat 0)
          (fl.of_nat output)

  -- the loop of `countShadedMppts`, with its two counters
  count_shaded_from : ℕ → F → List F → F → ℕ × F
  count_shaded_from count sum [] expected = (count, sum)
  count_shaded_from count sum (p ∷ ps) expected =
      let shaded = fl.lt p expected in
      count_shaded_from (if shaded then count + 1 else count) (if shaded then fl.add sum p else sum)
        ps expected

  unfoldable pub count_shaded_mppts : List F → (expected_power_per_mppt : F) → ℕ × F
  unfolding count_shaded_from
  count_shaded_mppts mppts expected = count_shaded_from 0 (fl.of_nat 0) mppts expected

  unfoldable pub has_compensable_shading : List F → (expected_power_per_mppt : F) → Bool
  has_compensable_shading mppts expected =
      let shaded = (count_shaded_mppts mppts expected).0 in
      if leb (length mppts) 1 then false else ltb 0 shaded && ltb shaded (length mppts)

  -- what is left for the MPPTs in the sun, times their number, within the inverter's power
  scaled_limit : (expected total shaded : ℕ) → F → (inverter_max_power : ℕ) → ℕ
  scaled_limit expected total shaded shaded_power max_power =
      let per_mppt =
        fl.to_u16
          (fl.div (fl.sub (fl.of_nat expected) shaded_power) (fl.of_nat (total - shaded))) in
      let limit = min (u16 (per_mppt * total)) max_power in
      if ltb expected limit then limit else expected

  -- `totalMppts` is above 0 at each call in the code: the division by 0 is left out.
  unfoldable pub calculate_overscaled_limit :
      (current_limit_watts new_expected_output_watts : ℕ)
      → List F
      → (inverter_max_power : ℕ) → (current_threshold new_threshold : F) → ℕ
  unfolding scaled_limit
  calculate_overscaled_limit current expected mppts max_power current_threshold new_threshold =
      let total = length mppts in
      let current_per_mppt = fl.mul (fl.of_nat (current / total)) current_threshold in
      let new_per_mppt = fl.mul (fl.of_nat (expected / total)) new_threshold in
      let increasing = fl.lt (sum_channel_power mppts) (fl.of_nat expected) in
      let shaded =
        count_shaded_mppts mppts (if increasing then current_per_mppt else new_per_mppt) in
      if shaded.0 == 0
      then expected
      else if total - shaded.0 == 0
      then (if ltb current expected then expected else current)
      else scaled_limit expected total shaded.0 shaded.1 max_power

  unfoldable pub calculate_overscaled_limit_for_expected_output :
      (expected_output_watts : ℕ) → List F → (inverter_max_power : ℕ) → (threshold : F) → ℕ
  unfolding scaled_limit
  calculate_overscaled_limit_for_expected_output expected mppts max_power threshold =
      let total = length mppts in
      let shaded = count_shaded_mppts mppts (fl.mul (fl.of_nat (expected / total)) threshold) in
      if leb total 1
      then expected
      else if shaded.0 == 0 || shaded.0 == total
      then expected
      else if fl.le (fl.of_nat expected) shaded.1
      then expected
      else scaled_limit expected total shaded.0 shaded.1 max_power

  unfoldable pub calculate_max_compensated_output :
      List F → (inverter_max_power : ℕ) → (expected_power_per_mppt : F) → ℕ
  calculate_max_compensated_output mppts max_power expected =
      let total = length mppts in
      let shaded = count_shaded_mppts mppts expected in
      let per_mppt = fl.div (fl.of_nat max_power) (fl.of_nat total) in
      let output = fl.add shaded.1 (fl.mul per_mppt (fl.of_nat (total - shaded.0))) in
      if leb total 1 || max_power == 0
      then max_power
      else if shaded.0 == 0 || shaded.0 == total
      then max_power
      else fl.to_u16 (clamp output (fl.of_nat 0) (fl.of_nat max_power))

  unfoldable pub calculate_per_channel_limit_output :
      (current_limit_watts output_limit_watts : ℕ) → List F → (limit_binding_threshold : F) → ℕ
  calculate_per_channel_limit_output current output channels threshold =
      fl.to_u16 (calculate_per_channel_limit_output_float current output channels threshold)

  -- the loop of `countLimitBoundChannels`
  count_bound_from : ℕ → F → List Bool → List F → ℕ × F
  count_bound_from count sum (b ∷ bs) (p ∷ ps) =
      count_bound_from (if b then count + 1 else count) (if b then fl.add sum p else sum) bs ps
  count_bound_from count sum _ _ = (count, sum)

  unfoldable pub count_limit_bound_channels :
      (current_limit_watts : ℕ) → List F → (limit_binding_threshold : F) → ℕ × F
  unfolding count_bound_from
  count_limit_bound_channels current channels threshold =
      let bound = collect_limit_bound_channels current channels threshold in
      if not (length bound == length channels)
      then (0, fl.of_nat 0)
      else count_bound_from 0 (fl.of_nat 0) bound channels

  unfoldable pub has_limit_bound_channel :
      (current_limit_watts : ℕ) → List F → (limit_binding_threshold : F) → Bool
  has_limit_bound_channel current channels threshold =
      ltb 0 (count_limit_bound_channels current channels threshold).0

  -- does the limit yield the expected output?
  unfoldable pub yields : (current expected : ℕ) → List F → F → (limit : ℕ) → Bool
  yields current expected channels threshold limit =
      fl.le (fl.of_nat expected)
        (calculate_per_channel_limit_output_float current limit channels threshold)

  unfoldable pub calculate_per_channel_overscaled_limit :
      (current_limit_watts expected_output_watts : ℕ)
      → List F
      → (inverter_max_power : ℕ) → (limit_binding_threshold : F) → ℕ
  calculate_per_channel_overscaled_limit current expected channels max_power threshold =
      if leb (length channels) 1 || max_power == 0
      then expected
      else if not (has_limit_bound_channel current channels threshold)
      then expected
      else if leb max_power expected
      then max_power
      else if yields current expected channels threshold expected
      then expected
      else if fl.lt (calculate_per_channel_limit_output_float current max_power channels threshold)
          (fl.of_nat expected)
      then max_power
      else lowest_enough search_fuel (yields current expected channels threshold) expected max_power

  unfoldable pub calculate_max_per_channel_output :
      (current_limit_watts : ℕ)
      → List F
      → (inverter_max_power : ℕ) → (limit_binding_threshold : F) → ℕ
  calculate_max_per_channel_output current channels max_power threshold =
      if leb (length channels) 1 || max_power == 0
      then max_power
      else if not (has_limit_bound_channel current channels threshold)
      then fl.to_u16 (clamp (sum_channel_power channels) (fl.of_nat 0) (fl.of_nat max_power))
      else calculate_per_channel_limit_output current max_power channels threshold
