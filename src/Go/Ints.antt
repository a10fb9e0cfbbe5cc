-- ===== src/Go/Ints.antt =====
-- Go's 64-bit `int` and `uint64`, as integers with the wrap-around written out.
use compose_cli.Prelude.{
  zero, suc, not, ◌/◌, ℕ, ◌+◌, ◌-◌, ◌%◌, ◌^◌, ◌<◌, ◌≡◌, Bool, true, false, Bool-cases, inl, inr,
  arith, ltb, eqb, if◌then◌else◌,
}

-- `negsuc n` is -(n + 1).
pub data ℤ : Type 0 where
  pos : ℕ → ℤ
  negsuc : ℕ → ℤ

-- int(n) for a uint64
abbrev pub int_of_uint64 : ℕ → ℤ
int_of_uint64 n = if ltb n (2 ^ 63) then pos n else negsuc (2 ^ 64 - 1 - n)

abbrev pub is_zero : ℤ → Bool
is_zero (pos n) = eqb n 0
is_zero (negsuc n) = false

-- a < b
abbrev pub lt_int : ℤ → ℤ → Bool
lt_int (pos a) (pos b) = ltb a b
lt_int (pos a) (negsuc b) = false
lt_int (negsuc a) (pos b) = true
lt_int (negsuc a) (negsuc b) = ltb b a

-- a <= b
abbrev pub le_int : ℤ → ℤ → Bool
le_int a b = not (lt_int b a)

-- The larger one of two.
abbrev pub max_int : ℤ → ℤ → ℤ
max_int a b = if lt_int b a then a else b

-- -n
abbrev pub negate : ℕ → ℤ
negate zero = pos 0
negate (suc n) = negsuc n

-- z / k for a positive constant k: the quotient is cut towards zero.
abbrev pub div_int : ℤ → ℕ → ℤ
div_int (pos n) k = pos (n / k)
div_int (negsuc n) k = negate (suc n / k)

-- uint64(z)
abbrev pub uint64_of : ℤ → ℕ
uint64_of (pos n) = n % 2 ^ 64
uint64_of (negsuc n) = 2 ^ 64 - 1 - n % 2 ^ 64

-- z + n
abbrev pub add_int : ℤ → ℕ → ℤ
add_int z n = int_of_uint64 ((uint64_of z + n) % 2 ^ 64)

-- int32(n) for a uint32
abbrev pub int32_of_uint32 : ℕ → ℤ
int32_of_uint32 n = if ltb n (2 ^ 31) then pos n else negsuc (2 ^ 32 - 1 - n)

-- uint32(z)
abbrev pub uint32_of : ℤ → ℕ
uint32_of (pos n) = n % 2 ^ 32
uint32_of (negsuc n) = 2 ^ 32 - 1 - n % 2 ^ 32

pub uint32_of-int32_of_uint32 : (n : ℕ) → n < 2 ^ 32 → uint32_of (int32_of_uint32 n) ≡ n
uint32_of-int32_of_uint32 n small = elim (Bool-cases (ltb n (2 ^ 31))) [
  | inl low ↦ rw low (omega arith)
  | inr high ↦ rw high (ground arith)
]
