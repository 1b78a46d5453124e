-- ===== src/Limiter/Restart/Emergency.antt =====
-- The pause between two requests for full output.
use flux_dtu.Base.{
  ℕ, ◌+◌, ◌≤◌, ◌<◌, ◌≡◌, refl, Bool, true, false, ◌&&◌, List, [], ◌∷◌, ◌++◌, arith, ltb,
  if◌then◌else◌, add32,
}
use flux_dtu.Limiter.State.{Limiter}
use flux_dtu.Limiter.Restart.{should_request_emergency_full_output}

module _ {F : Type 0} where
  -- the state after calls that come some milliseconds after a start
  abbrev pub ask : (start : ℕ) → (offsets : List ℕ) → Limiter F → Limiter F
  ask start [] l = l
  ask start (o ∷ os) l = ask start os (should_request_emergency_full_output (add32 start o) l).1

  -- how many of them are to request full output
  abbrev pub requests : (start : ℕ) → (offsets : List ℕ) → Limiter F → ℕ
  requests start [] l = 0
  requests start (o ∷ os) l =
      let asked = should_request_emergency_full_output (add32 start o) l in
      (if asked.0 then 1 else 0) + requests start os asked.1

abbrev pub all_below : (bound : ℕ) → List ℕ → Bool
all_below bound [] = true
all_below bound (o ∷ os) = ltb o bound && all_below bound os

module _ {F : Type 0} where
  should_request-waits :
      (start o : ℕ) (l : Limiter F)
      → start < 4_294_967_296
      → o < 5000
      → l.emergency_full_output_active ≡ true
      → l.last_emergency_full_output_request_millis ≡ start
      → ((should_request_emergency_full_output (add32 start o) l).0 ≡ false)
        × ((should_request_emergency_full_output (add32 start o) l).1 ≡ l)
  unfolding should_request_emergency_full_output
  should_request-waits start o l p q r s = ground (arith, p, q, r, s)

  requests-waits :
      (start : ℕ) (os rest : List ℕ) (l : Limiter F)
      → start < 4_294_967_296
      → all_below 5000 os ≡ true
      → l.emergency_full_output_active ≡ true
      → l.last_emergency_full_output_request_millis ≡ start
      → requests start (os ++ rest) l ≡ requests start rest l
  requests-waits start [] rest l p q r s = refl
  requests-waits start (o ∷ os) rest l p q r s =
      let e = should_request-waits start o l p (ground (arith, q)) r s in
      rw (e.0, e.1) (omega (arith, requests-waits start os rest l p (ground (arith, q)) r s))

  requests-again :
      (start o : ℕ) (l : Limiter F)
      → start < 4_294_967_296
      → 5000 ≤ o
      → o < 4_294_967_296
      → l.last_emergency_full_output_request_millis ≡ start
      → requests start (o ∷ []) l ≡ 1
  unfolding should_request_emergency_full_output
  requests-again start o l p q r s = ground (arith, p, q, r, s)

  requests-first :
      (start : ℕ) (os : List ℕ) (l : Limiter F)
      → start < 4_294_967_296
      → l.emergency_full_output_active ≡ false
      → requests start (0 ∷ os) l
        ≡ 1
          + requests start os (record l {
            emergency_full_output_active = true;
            last_emergency_full_output_request_millis = start;
          })
  unfolding should_request_emergency_full_output
  requests-first start os l p q =
      let same : add32 start 0 ≡ start = omega (arith, p) in rw (same, q) refl

  -- Once an emergency has begun full output is requested at once, is not requested again for five
  -- seconds, however often it is asked for, and is requested again at the first call after that.
  -- The millisecond counter may wrap round.
  pub requests-throttled :
      (start o : ℕ) (os : List ℕ) (l : Limiter F)
      → start < 4_294_967_296
      → l.emergency_full_output_active ≡ false
      → all_below 5000 os ≡ true
      → 5000 ≤ o
      → o < 4_294_967_296
      → (requests start (0 ∷ (os ++ [])) l ≡ 1) × (requests start (0 ∷ (os ++ (o ∷ []))) l ≡ 2)
  requests-throttled start o os l p q r s u =
      let l' : Limiter F = record l {
        emergency_full_output_active = true;
        last_emergency_full_output_request_millis = start;
      } in
      (
        omega (
          arith,
          requests-first start (os ++ []) l p q,
          requests-waits start os [] l' p r refl refl,
        ),
        omega (
          arith,
          requests-first start (os ++ (o ∷ [])) l p q,
          requests-waits start os (o ∷ []) l' p r refl refl,
          requests-again start o l' p s u refl,
        ),
      )
