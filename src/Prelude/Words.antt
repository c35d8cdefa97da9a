-- ===== src/Prelude/Words.antt =====
-- Machine integers: `u64` and `usize` (64-bit), `i64`, and the casts between them.
use Prim.Native.Nat.{ℕ, ◌+◌, ◌%◌, ◌^◌}

abbrev pub u64_mod : ℕ
u64_mod = 2 ^ 64

-- The wrap-around addition of atomic counters, and of `+` in a build without overflow checks.
abbrev pub add_u64 : ℕ → ℕ → ℕ
add_u64 a b = (a + b) % u64_mod
