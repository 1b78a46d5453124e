-- ===== src/Examples/Scaling.antt =====
-- The calculator, for two inputs of which one is in the shade.
use flux_dtu.Base.{ℕ, ◌-◌, ◌≤◌, ◌<◌, ◌≡◌, ◌⊎◌, refl, true, false, List, [], ◌∷◌, arith}
use flux_dtu.Float.{fixed}
use flux_dtu.Overscaling.Calculator.{
  yields, has_limit_bound_channel, calculate_per_channel_overscaled_limit,
  calculate_per_channel_limit_output_float, count_limit_bound_channels,
  collect_limit_bound_channels,
}
use flux_dtu.Overscaling.Calculator.Search.{calculate_per_channel_overscaled_limit_least}

abbrev channels : List ℕ
channels = 250_000 ∷ 50_000 ∷ []

bound_example : has_limit_bound_channel 500 channels 950 ≡ true
unfolding has_limit_bound_channel count_limit_bound_channels collect_limit_bound_channels
bound_example = refl

too_little_example : yields 500 400 channels 950 400 ≡ false
unfolding yields calculate_per_channel_limit_output_float collect_limit_bound_channels
too_little_example = refl

most_example :
    fixed.lt (calculate_per_channel_limit_output_float 500 1000 channels 950) (fixed.of_nat 400)
    ≡ false
unfolding calculate_per_channel_limit_output_float collect_limit_bound_channels
most_example = refl

calculate_per_channel_overscaled_limit_least_example :
    let r = calculate_per_channel_overscaled_limit 500 400 channels 1000 950 in
    (400 < r)
    × (r ≤ 1000)
    × ((r ≡ 1000) ⊎ (yields 500 400 channels 950 r ≡ true))
    × (yields 500 400 channels 950 (r - 1) ≡ false)
calculate_per_channel_overscaled_limit_least_example =
    calculate_per_channel_overscaled_limit_least 500 400 channels 1000 950 (omega arith)
      (omega arith) (omega arith) bound_example too_little_example most_example
