-- ===== src/Base/Bits.antt =====
-- `^` on numbers of a known width: it adds the binary digits without a carry, and is undone by
-- itself.
use Prim.Native.Nat.{
  ℕ, zero, suc, ◌+◌, ◌*◌, ◌/◌, ◌%◌, ◌^◌, ◌≤◌, ◌<◌, digits, differ, bit_xor, bit_xor-bitwise,
}
use mathlib.Core.Path.{◌≡◌, refl, ap, sym, ◌∙◌}
use native.Mathlib.Nat.{le_refl, pow-suc}
use native.Mathlib.Omega.{arith}

-- the sum of two numbers of `width` digits without a carry
abbrev add_digits : (width : ℕ) → ℕ → ℕ → ℕ
add_digits zero a b = 0
add_digits (suc width) a b = add_digits width (a / 2) (b / 2) * 2 + (a + b) % 2

half_lt : (width a : ℕ) → a < 2 ^ suc width → a / 2 < 2 ^ width
half_lt width a p = omega (arith, pow-suc 2 width)

add_digits_lt : (width a b : ℕ) → add_digits width a b < 2 ^ width
add_digits_lt zero a b = omega arith
add_digits_lt (suc width) a b = omega (arith, pow-suc 2 width, add_digits_lt width (a / 2) (b / 2))

add_digits_comm : (width a b : ℕ) → add_digits width a b ≡ add_digits width b a
add_digits_comm zero a b = refl
add_digits_comm (suc width) a b = omega (arith, add_digits_comm width (a / 2) (b / 2))

zero-add_digits : (width b : ℕ) → b < 2 ^ width → add_digits width 0 b ≡ b
zero-add_digits zero b p = omega arith
zero-add_digits (suc width) b p = omega (arith, zero-add_digits width (b / 2) (half_lt width b p))

add_digits_twice : (width a b : ℕ) → a < 2 ^ width → add_digits width (add_digits width a b) b ≡ a
add_digits_twice zero a b p = omega arith
add_digits_twice (suc width) a b p =
    let s = add_digits width (a / 2) (b / 2) in
    let half : add_digits (suc width) a b / 2 ≡ s = omega arith in
    let again : add_digits width (add_digits (suc width) a b / 2) (b / 2) ≡ a / 2 =
      rw half (add_digits_twice width (a / 2) (b / 2) (half_lt width a p)) in
    omega (arith, again)

-- what `differ` does to two binary digits
differ-mod : (a b : ℕ) → a < 2 → b < 2 → differ a b ≡ (a + b) % 2
differ-mod zero b p q = omega arith
differ-mod (suc zero) zero p q = refl
differ-mod (suc zero) (suc zero) p q = refl
differ-mod (suc zero) (suc (suc b)) p q = absurd (omega arith)
differ-mod (suc (suc a)) b p q = absurd (omega arith)

-- The native operation recurses on fuel; a value that is small for its width needs no more.
digits-add_digits :
    (width fuel a b : ℕ)
    → a ≤ fuel
    → a < 2 ^ width
    → b < 2 ^ width
    → digits (λ y. y) differ fuel a b ≡ add_digits width a b
digits-add_digits width zero a b f p q =
    let e : a ≡ 0 = omega arith in rw e (sym (zero-add_digits width b q))
digits-add_digits width (suc fuel) zero b f p q = sym (zero-add_digits width b q)
digits-add_digits zero (suc fuel) (suc a) b f p q = absurd (omega arith)
digits-add_digits (suc width) (suc fuel) (suc a) b f p q = omega (
  arith,
  digits-add_digits width fuel (suc a / 2) (b / 2) (omega arith) (half_lt width (suc a) p)
      (half_lt width b q),
  differ-mod (suc a % 2) (b % 2) (omega arith) (omega arith),
)

bit_xor-add_digits :
    (width a b : ℕ) → a < 2 ^ width → b < 2 ^ width → bit_xor a b ≡ add_digits width a b
bit_xor-add_digits width a b p q =
    simp bit_xor-bitwise (digits-add_digits width a a b (le_refl a) p q)

module _ (k a b : ℕ) (p : a < 2 ^ k) (q : b < 2 ^ k) where
  pub bit_xor_lt : bit_xor a b < 2 ^ k
  bit_xor_lt = omega (arith, bit_xor-add_digits k a b p q, add_digits_lt k a b)

  -- What is combined with a value twice is what it was.
  pub bit_xor_twice : bit_xor (bit_xor a b) b ≡ a
  bit_xor_twice =
      bit_xor-add_digits k (bit_xor a b) b bit_xor_lt q
      ∙ rw (bit_xor-add_digits k a b p q) (add_digits_twice k a b p)

  pub bit_xor_comm : bit_xor a b ≡ bit_xor b a
  bit_xor_comm =
      bit_xor-add_digits k a b p q ∙ add_digits_comm k a b ∙ sym (bit_xor-add_digits k b a q p)

pub bit_xor_injective :
    (k a b c : ℕ) → a < 2 ^ k → b < 2 ^ k → c < 2 ^ k → bit_xor a c ≡ bit_xor b c → a ≡ b
bit_xor_injective k a b c p q r e =
    sym (bit_xor_twice k a c p r) ∙ ap (λ (t : ℕ). bit_xor t c) e ∙ bit_xor_twice k b c q r
