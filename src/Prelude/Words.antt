-- ===== src/Prelude/Words.antt =====
-- C++ `unsigned`: 32 bits, wrapping.
use Prim.Native.Nat.{ℕ, ◌+◌, ◌%◌, ◌^◌}

-- The value that an `unsigned` holds after an arithmetic operation gave `n`.
abbrev pub word : ℕ → ℕ
word n = n % 2 ^ 32

-- `x++` on an `unsigned`.
abbrev pub increment : ℕ → ℕ
increment n = word (n + 1)
