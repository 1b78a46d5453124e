-- ===== src/Base/Words.antt =====
-- Unsigned machine words: `uint8_t`, `uint16_t` and `uint32_t` arithmetic, wrap-around written out.
use Prim.Native.Nat.{ℕ, ◌+◌, ◌-◌, ◌%◌}

abbrev pub u8 : ℕ → ℕ
u8 n = n % 256

abbrev pub u16 : ℕ → ℕ
u16 n = n % 65_536

-- `static_cast<uint16_t>(a - b)`, for `uint16_t` arguments
abbrev pub sub16 : ℕ → ℕ → ℕ
sub16 a b = (a + 65_536 - b) % 65_536

abbrev pub add32 : ℕ → ℕ → ℕ
add32 a b = (a + b) % 4_294_967_296

abbrev pub sub32 : ℕ → ℕ → ℕ
sub32 a b = (a + 4_294_967_296 - b) % 4_294_967_296

abbrev pub u32 : ℕ → ℕ
u32 n = n % 4_294_967_296
