-- ===== src/Base/Words.antt =====
-- The arithmetic of size_t, 64 bits wide.
use Prim.Native.Nat.{ℕ, ◌+◌, ◌-◌, ◌%◌, ◌^◌}

abbrev pub size_mod : ℕ
size_mod = 2 ^ 64

-- PTRDIFF_MAX + 1: no vector of char has more elements than the numbers below this.
abbrev pub max_size : ℕ
max_size = 2 ^ 63

abbrev pub add_size : ℕ → ℕ → ℕ
add_size a b = (a + b) % size_mod

abbrev pub sub_size : ℕ → ℕ → ℕ
sub_size a b = (a + size_mod - b) % size_mod
