-- ===== src/Base/Words.antt =====
-- Unsigned machine words as native numbers, with their wrap-around written out.
use Prim.Native.Nat.{ℕ, ◌+◌, ◌-◌, ◌*◌, ◌%◌, ◌^◌}

-- `std::numeric_limits<std::size_t>::max()`, and one more: the modulus of `std::uint64_t`.
abbrev pub u64_mod : ℕ
u64_mod = 2 ^ 64

abbrev pub size_max : ℕ
size_max = 2 ^ 64 - 1

-- `static_cast<std::uint32_t>(x)`
abbrev pub u32 : ℕ → ℕ
u32 x = x % 2 ^ 32

abbrev pub add64 : ℕ → ℕ → ℕ
add64 a b = (a + b) % u64_mod

-- The difference of two words below the modulus.
abbrev pub sub64 : ℕ → ℕ → ℕ
sub64 a b = (a + u64_mod - b) % u64_mod

abbrev pub mul64 : ℕ → ℕ → ℕ
mul64 a b = (a * b) % u64_mod
