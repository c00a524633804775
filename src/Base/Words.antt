-- ===== src/Base/Words.antt =====
-- Arithmetic of `uint64_t`, `uint16_t` and `uint8_t`: it wraps.
use Prim.Native.Nat.{ℕ, ◌+◌, ◌-◌, ◌%◌, ◌^◌}

abbrev pub u64_mod : ℕ
u64_mod = 2 ^ 64

unfoldable pub add64 : ℕ → ℕ → ℕ
add64 a b = (a + b) % u64_mod

unfoldable pub sub64 : ℕ → ℕ → ℕ
sub64 a b = (a + u64_mod - b) % u64_mod

abbrev pub u16 : ℕ → ℕ
u16 n = n % 65536

abbrev pub u8 : ℕ → ℕ
u8 n = n % 256
