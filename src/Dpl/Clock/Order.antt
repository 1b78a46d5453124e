-- ===== src/Dpl/Clock/Order.antt =====
-- `millisAtOrAfter`: the comparison of timestamps across the wrap of the 32-bit counter.
use flux_dtu.Base.{ℕ, ◌<◌, ◌≡◌, ◌↔◌, true, arith, add32}
use flux_dtu.Dpl.Clock.{half_of_all_millis, millis_at_or_after}

-- A timestamp that was taken `d` milliseconds after the reference, counted modulo 2 ^ 32, is at or
-- after it exactly when `d` is below half the range.
pub millis_at_or_after_iff :
    (r d : ℕ)
    → r < 4_294_967_296
    → d < 4_294_967_296
    → (millis_at_or_after (add32 r d) r ≡ true) ↔ (d < half_of_all_millis)
unfolding millis_at_or_after
millis_at_or_after_iff r d hr hd = ground arith

-- Two different timestamps are never each at or after the other.
pub millis_at_or_after_antisymm :
    (a b : ℕ)
    → a < 4_294_967_296
    → b < 4_294_967_296
    → millis_at_or_after a b ≡ true
    → millis_at_or_after b a ≡ true
    → a ≡ b
unfolding millis_at_or_after
millis_at_or_after_antisymm a b ha hb p q = ground arith
