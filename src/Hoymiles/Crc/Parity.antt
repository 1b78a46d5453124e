-- ===== src/Hoymiles/Crc/Parity.antt =====
-- The 8-bit checksum, by which a radio tells a damaged frame.
use flux_dtu.Base.{
  ℕ, zero, suc, ◌+◌, ◌-◌, ◌<◌, ◌≡◌, refl, ◌∙◌, Bool, true, ◌&&◌, List, [], ◌∷◌, ◌++◌, arith, ◌==◌,
  bit_xor, iterate, bit_xor_lt, bit_xor_injective, bit_xor_comm, length, take-append, get_or-append,
}
use flux_dtu.Hoymiles.Crc.{crc8, crc8_from, crc8_round, get_data_payload, check_fragment_crc}
use flux_dtu.Hoymiles.Crc.Detects.{AllBytes, more_bytes}

-- do all numbers below `n` pass the test?
abbrev all_below : ℕ → (ℕ → Bool) → Bool
all_below zero p = true
all_below (suc n) p = p n && all_below n p

all_below_lem : (n k : ℕ) (p : ℕ → Bool) → all_below n p ≡ true → k < n → p k ≡ true
all_below_lem zero k p e lt = absurd (omega arith)
all_below_lem (suc n) k p e lt = ground (arith, all_below_lem n k p)

-- By its polynomial a round is a rotation, and eight of them change nothing.
crc8_rounds_table : all_below 256 (λ x. iterate 8 crc8_round x == x) ≡ true
unfolding crc8_round
crc8_rounds_table = refl

crc8_rounds : (x : ℕ) → x < 256 → iterate 8 crc8_round x ≡ x
crc8_rounds x p =
    ground (arith, all_below_lem 256 x (λ x. iterate 8 crc8_round x == x) crc8_rounds_table p)

-- all bytes combined with one another
abbrev pub parity : (start : ℕ) → List ℕ → ℕ
parity start [] = start
parity start (b ∷ bs) = parity (bit_xor start b) bs

crc8_from-eq-parity :
    (bs : List ℕ) (crc : ℕ) → AllBytes bs → crc < 256 → crc8_from crc bs ≡ parity crc bs
unfolding crc8_from
crc8_from-eq-parity [] crc h p = refl
crc8_from-eq-parity (b ∷ bs) crc (more_bytes _ _ q h) p =
    rw (crc8_rounds (bit_xor crc b) (bit_xor_lt 8 crc b p q))
      (crc8_from-eq-parity bs (bit_xor crc b) h (bit_xor_lt 8 crc b p q))

-- With the polynomial 0x01, the checksum of a frame is no more than all of its bytes combined by
-- exclusive or.
pub crc8-eq-parity : (bs : List ℕ) → AllBytes bs → crc8 bs ≡ parity 0 bs
unfolding crc8
crc8-eq-parity bs h = crc8_from-eq-parity bs 0 h (omega arith)

parity_injective :
    (bs : List ℕ) (c d : ℕ) → AllBytes bs → c < 256 → d < 256 → parity c bs ≡ parity d bs → c ≡ d
parity_injective [] c d h p q e = e
parity_injective (b ∷ bs) c d (more_bytes _ _ r h) p q e =
    bit_xor_injective 8 c d b p q r
      (parity_injective bs _ _ h (bit_xor_lt 8 c b p r) (bit_xor_lt 8 d b q r) e)

parity_detects :
    (xs ys : List ℕ) (b b' start : ℕ)
    → AllBytes xs
    → AllBytes ys
    → b < 256
    → b' < 256
    → start < 256
    → parity start (xs ++ b ∷ ys) ≡ parity start (xs ++ b' ∷ ys)
    → b ≡ b'
parity_detects [] ys b b' start hx hy p q r e = bit_xor_injective 8 b b' start p q r (
    bit_xor_comm 8 b start p r
    ∙ parity_injective ys _ _ hy (bit_xor_lt 8 start b r p) (bit_xor_lt 8 start b' r q) e
    ∙ bit_xor_comm 8 start b' r q)
parity_detects (x ∷ xs) ys b b' start (more_bytes _ _ s hx) hy p q r e =
    parity_detects xs ys b b' _ hx hy p q (bit_xor_lt 8 start x r s) e

append-AllBytes :
    (xs ys : List ℕ) (b : ℕ) → AllBytes xs → AllBytes ys → b < 256 → AllBytes (xs ++ b ∷ ys)
append-AllBytes [] ys b hx hy p = more_bytes b ys p hy
append-AllBytes (x ∷ xs) ys b (more_bytes _ _ q hx) hy p =
    more_bytes x (xs ++ b ∷ ys) q (append-AllBytes xs ys b hx hy p)

check-payload :
    (payload : List ℕ) (crc : ℕ)
    → check_fragment_crc (payload ++ (crc ∷ [])) (length payload + 1) ≡ (crc8 payload == crc)
unfolding check_fragment_crc
check-payload payload crc =
    let e : length payload + 1 - 1 ≡ length payload = omega arith in
    rw (e, take-append payload (crc ∷ []), get_or-append payload crc 0) refl

-- A frame that is sent as `getDataPayload` makes it is accepted by `checkFragmentCrc`; and where one
-- byte of the payload may have become another on its way, it is accepted only if it has not.
pub check_fragment_crc-get_data_payload :
    (xs ys : List ℕ) (b b' : ℕ)
    → AllBytes xs
    → AllBytes ys
    → b < 256
    → b' < 256
    → let sent = xs ++ b ∷ ys in
      let received = xs ++ b' ∷ ys in
      (check_fragment_crc (get_data_payload sent) (length sent + 1) ≡ true)
      × (check_fragment_crc (received ++ (crc8 sent ∷ [])) (length received + 1) ≡ (b == b'))
unfolding get_data_payload
check_fragment_crc-get_data_payload xs ys b b' hx hy p q =
    let sent = xs ++ b ∷ ys in
    let received = xs ++ b' ∷ ys in
    ground (
      arith,
      check-payload sent (crc8 sent),
      check-payload received (crc8 sent),
      crc8-eq-parity sent (append-AllBytes xs ys b hx hy p),
      crc8-eq-parity received (append-AllBytes xs ys b' hx hy q),
      parity_detects xs ys b b' 0 hx hy p q (omega arith),
    )
