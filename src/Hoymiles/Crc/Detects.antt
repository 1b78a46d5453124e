-- ===== src/Hoymiles/Crc/Detects.antt =====
-- A single byte that is changed changes the checksum.
use flux_dtu.Base.{
  ◌==◌, ℕ, zero, suc, ◌/◌, ◌<◌, ◌≤◌, ◌≡◌, ◌∙◌, List, [], ◌∷◌, ◌++◌, arith, bit_xor, iterate,
  bit_xor_lt, bit_xor_twice, bit_xor_injective, bit_xor_comm,
}
use flux_dtu.Hoymiles.Crc.{crc16, crc16_round}

-- every element is a byte
pub data AllBytes : List ℕ → Type 0 where
  no_bytes : AllBytes []
  more_bytes : (b : ℕ) (bs : List ℕ) → b < 256 → AllBytes bs → AllBytes (b ∷ bs)

crc16_round_lt : (c : ℕ) → c < 65_536 → crc16_round c < 65_536
unfolding crc16_round
crc16_round_lt c p = ground (arith, bit_xor_lt 16 (c / 2) 40_961)

-- The top bit of the polynomial tells which branch was taken.
crc16_round_top : (c : ℕ) → c < 32_768 → 32_768 ≤ bit_xor c 40_961
crc16_round_top c p = ground (
  arith,
  bit_xor_comm 16 c 40_961 (omega arith) (omega arith),
  bit_xor_twice 16 40_961 c (omega arith) (omega arith),
  bit_xor_lt 15 (bit_xor 40_961 c) c,
)

crc16_round_injective : (c d : ℕ) → c < 65_536 → d < 65_536 → crc16_round c ≡ crc16_round d → c ≡ d
unfolding crc16_round
crc16_round_injective c d p q e = ground (
  arith,
  crc16_round_top (c / 2) (omega arith),
  crc16_round_top (d / 2) (omega arith),
  bit_xor_injective 16 (c / 2) (d / 2) 40_961,
)

-- a round that keeps to a range, and is injective on it, may be repeated
module _ (f : ℕ → ℕ) (bound : ℕ) (f_lt : (c : ℕ) → c < bound → f c < bound) where
  iterate_lt : (n c : ℕ) → c < bound → iterate n f c < bound
  iterate_lt zero c p = p
  iterate_lt (suc n) c p = iterate_lt n (f c) (f_lt c p)

  iterate_injective :
      (n c d : ℕ)
      → ((c d : ℕ) → c < bound → d < bound → f c ≡ f d → c ≡ d)
      → c < bound
      → d < bound
      → iterate n f c ≡ iterate n f d
      → c ≡ d
  iterate_injective zero c d inj p q e = e
  iterate_injective (suc n) c d inj p q e =
      inj c d p q (iterate_injective n (f c) (f d) inj (f_lt c p) (f_lt d q) e)

crc16_byte_lt : (c b : ℕ) → c < 65_536 → b < 256 → iterate 8 crc16_round (bit_xor c b) < 65_536
crc16_byte_lt c b p q =
    iterate_lt crc16_round 65_536 crc16_round_lt 8 (bit_xor c b) (bit_xor_lt 16 c b p (omega arith))

pub crc16_lt : (bs : List ℕ) (c : ℕ) → AllBytes bs → c < 65_536 → crc16 bs c < 65_536
unfolding crc16
crc16_lt [] c h p = p
crc16_lt (b ∷ bs) c (more_bytes _ _ q h) p = crc16_lt bs _ h (crc16_byte_lt c b p q)

crc16_byte_injective :
    (c d b b' : ℕ)
    → c < 65_536
    → d < 65_536
    → b < 256
    → b' < 256
    → iterate 8 crc16_round (bit_xor c b) ≡ iterate 8 crc16_round (bit_xor d b')
    → bit_xor c b ≡ bit_xor d b'
crc16_byte_injective c d b b' p q r s =
    iterate_injective crc16_round 65_536 crc16_round_lt 8 (bit_xor c b) (bit_xor d b')
      crc16_round_injective (bit_xor_lt 16 c b p (omega arith)) (bit_xor_lt 16 d b' q (omega arith))

crc16_injective :
    (bs : List ℕ) (c d : ℕ)
    → AllBytes bs
    → c < 65_536
    → d < 65_536
    → crc16 bs c ≡ crc16 bs d
    → c ≡ d
unfolding crc16
crc16_injective [] c d h p q e = e
crc16_injective (b ∷ bs) c d (more_bytes _ _ r h) p q e =
    bit_xor_injective 16 c d b p q (omega arith) (
      crc16_byte_injective c d b b p q r r
        (crc16_injective bs _ _ h (crc16_byte_lt c b p r) (crc16_byte_lt d b q r) e))

crc16_one_byte :
    (xs ys : List ℕ) (b b' start : ℕ)
    → AllBytes xs
    → AllBytes ys
    → b < 256
    → b' < 256
    → start < 65_536
    → crc16 (xs ++ b ∷ ys) start ≡ crc16 (xs ++ b' ∷ ys) start
    → b ≡ b'
unfolding crc16
crc16_one_byte [] ys b b' start hx hy p q r e =
    bit_xor_injective 16 b b' start (omega arith) (omega arith) r (
      bit_xor_comm 16 b start (omega arith) r
      ∙ crc16_byte_injective start start b b' r r p q
          (crc16_injective ys _ _ hy (crc16_byte_lt start b r p) (crc16_byte_lt start b' r q) e)
      ∙ bit_xor_comm 16 start b' r (omega arith))
crc16_one_byte (x ∷ xs) ys b b' start (more_bytes _ _ s hx) hy p q r e =
    crc16_one_byte xs ys b b' _ hx hy p q (crc16_byte_lt start x r s) e

-- The 16-bit checksums of two messages that are the same but for one byte, wherever it is, are
-- equal only if that byte is the same too.
pub crc16_detects :
    (xs ys : List ℕ) (b b' start : ℕ)
    → AllBytes xs
    → AllBytes ys
    → b < 256
    → b' < 256
    → start < 65_536
    → (crc16 (xs ++ b ∷ ys) start == crc16 (xs ++ b' ∷ ys) start) ≡ (b == b')
crc16_detects xs ys b b' start hx hy p q r =
    ground (arith, crc16_one_byte xs ys b b' start hx hy p q r)
